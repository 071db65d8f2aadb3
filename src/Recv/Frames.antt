-- ===== src/Recv/Frames.antt =====
-- The specification of framing: a byte stream is whole packets, one behind the other, and then
-- an incomplete packet or one that Check rejects.
use network.Prelude.{
  ℕ, ◌≡◌, ◌≤◌, ◌<◌, ◌∙◌, ap, sym, refl, ◌⊎◌, inl, inr, true, false, Bool, List, [], ◌∷◌, ◌++◌,
  length, take, subst, drop, arith, append_assoc, length-append, take-length_append,
  drop-length_append, get_or-append,
}
use network.Packet.{check, view, header_size}

-- A whole packet: Check accepts its header, and it is as long as that says.
pub record IsPacket (p : List ℕ) : Type 0 where
  pub checked : check (view p) ≡ true
  pub least : header_size ≤ length p
  pub whole : length p ≡ (view p).size

abbrev pub IsPartial : List ℕ → Type 0
IsPartial x =
    (length x < header_size)
    ⊎ ((header_size ≤ length x) × (check (view x) ≡ true) × (length x < (view x).size))

abbrev pub IsBad : List ℕ → Type 0
IsBad x = (header_size ≤ length x) × (check (view x) ≡ false)

-- Frames x ps rest good: the packets of `x`, what is left, and whether that may still be completed.
pub data Frames : List ℕ → List (List ℕ) → List ℕ → Bool → Type 0 where
  partial : {x : List ℕ} → IsPartial x → Frames x [] x true
  bad : {x : List ℕ} → IsBad x → Frames x [] x false
  next :
      {x : List ℕ} (p y : List ℕ) {ps : List (List ℕ)} {rest : List ℕ} {good : Bool}
      → IsPacket p
      → x ≡ p ++ y
      → Frames y ps rest good
      → Frames x (p ∷ ps) rest good

-- More bytes go on where the stream stopped: how it was cut into pieces does not matter.
pub Frames-append :
    (x y : List ℕ) {ps qs : List (List ℕ)} {rest rest' : List ℕ} {good : Bool}
    → Frames x ps rest true
    → Frames (rest ++ y) qs rest' good
    → Frames (x ++ y) (ps ++ qs) rest' good
Frames-append x y (partial h) g = g
Frames-append x y (next p z k e f) g =
    next p (z ++ y) k (ap (λ l. l ++ y) e ∙ append_assoc p z y) (Frames-append z y f g)

pub u16_at-append : (p y : List ℕ) → header_size ≤ length p → view (p ++ y) ≡ view p
u16_at-append p y h =
    rw
      (
        get_or-append p y 0 0 (omega arith),
        get_or-append p y 1 0 (omega arith),
        get_or-append p y 2 0 (omega arith),
        get_or-append p y 3 0 (omega arith),
      )
      refl

-- A stream of whole packets comes apart into just these, and nothing is left.
unfoldable pub flatten : List (List ℕ) → List ℕ
flatten [] = []
flatten (p ∷ ps) = p ++ flatten ps

abbrev pub AllPackets : List (List ℕ) → Type 0
AllPackets [] = Unit {0}
AllPackets (p ∷ ps) = IsPacket p × AllPackets ps

pub flatten-Frames : (ps : List (List ℕ)) → AllPackets ps → Frames (flatten ps) ps [] true
unfolding flatten
flatten-Frames [] h = partial (inl (omega arith))
flatten-Frames (p ∷ ps) h = next p (flatten ps) h.0 refl (flatten-Frames ps h.1)

-- A whole packet is no start of an incomplete or a bad one.
packet_not_stopped : (p y : List ℕ) → IsPacket p → IsPartial (p ++ y) ⊎ IsBad (p ++ y) → ⊥
packet_not_stopped p y k (inl (inl h)) = omega (arith, k.least, length-append p y)
packet_not_stopped p y k (inl (inr (_, _, h))) =
    omega (arith, k.whole, length-append p y, ap (λ v. v.size) (u16_at-append p y k.least))
packet_not_stopped p y k (inr (_, h)) = cc (ap check (u16_at-append p y k.least), k.checked, h)

-- The specification is a function: a stream comes apart in one way only.
pub Frames-unique :
    {x : List ℕ} {ps qs : List (List ℕ)} {rest rest' : List ℕ} {good good' : Bool}
    → Frames x ps rest good
    → Frames x qs rest' good'
    → (ps ≡ qs) × (rest ≡ rest') × (good ≡ good')
Frames-unique (partial h) (partial k) = (refl, refl, refl)
Frames-unique (partial (inl h)) (bad k) = absurd (omega (arith, k.0))
Frames-unique (partial (inr h)) (bad k) = cc (h.1, k.1)
Frames-unique (bad k) (partial (inl h)) = absurd (omega (arith, k.0))
Frames-unique (bad k) (partial (inr h)) = cc (h.1, k.1)
Frames-unique (bad h) (bad k) = (refl, refl, refl)
Frames-unique (partial h) (next p y k e f) =
    absurd (packet_not_stopped p y k (inl (subst IsPartial e h)))
Frames-unique (bad h) (next p y k e f) = absurd (packet_not_stopped p y k (inr (subst IsBad e h)))
Frames-unique (next p y k e f) (partial h) =
    absurd (packet_not_stopped p y k (inl (subst IsPartial e h)))
Frames-unique (next p y k e f) (bad h) = absurd (packet_not_stopped p y k (inr (subst IsBad e h)))
Frames-unique (next p y {ps = us} {rest = r} {good = b} k e f) (next q z j d g) =
    let same = sym e ∙ d in
    let views = sym (u16_at-append p y k.least) ∙ ap view same ∙ u16_at-append q z j.least in
    let lengths : length p ≡ length q = k.whole ∙ ap (λ v. v.size) views ∙ sym j.whole in
    let heads : p ≡ q =
      sym (take-length_append p y) ∙ (λ i. take (lengths i) (same i)) ∙ take-length_append q z in
    let tails : y ≡ z =
      sym (drop-length_append p y) ∙ (λ i. drop (lengths i) (same i)) ∙ drop-length_append q z in
    let (m, n, o) = Frames-unique (subst (λ l. Frames l us r b) tails f) g in
    (λ i. heads i ∷ m i, n, o)

-- A stream is its packets and what is left.
pub Frames-split :
    {x : List ℕ} {ps : List (List ℕ)} {rest : List ℕ} {good : Bool}
    → Frames x ps rest good
    → (x ≡ flatten ps ++ rest) × AllPackets ps
unfolding flatten
Frames-split (partial h) = (refl, tt)
Frames-split (bad h) = (refl, tt)
Frames-split (next p y {ps = ps} {rest = rest} k e f) =
    let (s, a) = Frames-split f in
    (e ∙ ap (λ l. p ++ l) s ∙ sym (append_assoc p (flatten ps) rest), (k, a))

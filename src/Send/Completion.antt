-- ===== src/Send/Completion.antt =====
-- HNetIoSend::Sended: the head was sent, and the ring goes on with the next buffer or rests.
use network.Prelude.{
  ℕ, suc, ◌≡◌, ◌<◌, ◌+◌, ◌∙◌, ap, sym, subst, refl, true, false, Bool, List, [], ◌∷◌, ◌++◌, ◌⊎◌,
  if◌then◌else◌, length, arith, append-nil, Bool-cases, inl, inr, ◌==◌, ==→eq, ne→==, eq→==, tests,
}
use network.Send.{Gathering, SendIo, release, head_bytes, pass_head, part_tail, sended}
use network.Send.Queue.{
  flatten, unsent, AllFilled, AllFree, Busy, IsValid, waiting, accepted, concat, AllFree-append,
}
use network.Send.Storing.{Busy-cases}

-- How many buffers hold bytes that are being sent or wait.
abbrev count_list : List Gathering → ℕ
count_list [] = 0
count_list (g ∷ gs) = suc (count_list gs)

abbrev pub load : SendIo → ℕ
load s = count_list s.ahead + (if length s.tail.bytes == 0 then 0 else 1)

pub load_positive : (s : SendIo) → Busy s.ahead → 0 < load s
load_positive s b = let (x, xs, e, _) = Busy-cases s.ahead b in omega (arith, ap count_list e)

-- What Sended does to a valid ring whose head was posted.
pub record Completes (s u : SendIo) : Type 0 where
  pub accepts : accepted u ≡ accepted s
  pub sent : u.sent ≡ s.sent
  pub next : (u.pending ≡ false) ⊎ ((u.pending ≡ true) × (u.due ≡ true) × (suc (load u) ≡ load s))
  pub valid : IsValid u

pass_head_lem :
    (s : SendIo) (x : Gathering) (xs : List Gathering)
    → s.ahead ≡ x ∷ xs
    → pass_head s ≡ record s { ahead = xs; free = s.free ++ release x ∷ [] }
unfolding pass_head
pass_head_lem s x xs e = rw (pass_head, e) refl

-- What Sended does once the head is passed.
abbrev decide : Bool → SendIo → SendIo
decide b t = if b then record t { pending = false } else record (part_tail t) { due = true }

sended-decide :
    (s : SendIo) (x : Gathering) (xs : List Gathering) (b : Bool)
    → s.ahead ≡ x ∷ xs
    → let t = record s { ahead = xs; free = s.free ++ release x ∷ [] } in
      (length (head_bytes t) == 0) ≡ b → sended s ≡ decide b t
unfolding sended
sended-decide s x xs b e h =
    ap (λ t. decide (length (head_bytes t) == 0) t) (pass_head_lem s x xs e)
    ∙ ap (λ c. decide c (record s { ahead = xs; free = s.free ++ release x ∷ [] })) h

-- The three ways through Sended.
sended_more :
    (s : SendIo) (x h : Gathering) (hs : List Gathering)
    → s.ahead ≡ x ∷ h ∷ hs
    → 0 < length h.bytes
    → sended s ≡ record s { ahead = h ∷ hs; free = s.free ++ release x ∷ []; due = true }
unfolding part_tail head_bytes
sended_more s x h hs e p =
    sended-decide s x (h ∷ hs) false e (ne→== (length h.bytes) 0 (omega arith))

sended_rest :
    (s : SendIo) (x : Gathering)
    → s.ahead ≡ x ∷ []
    → length s.tail.bytes ≡ 0
    → sended s ≡ record s { ahead = []; free = s.free ++ release x ∷ []; pending = false }
unfolding head_bytes
sended_rest s x e p = sended-decide s x [] true e (eq→== (length s.tail.bytes) 0 p)

sended_turn :
    (s : SendIo) (x f : Gathering) (fs : List Gathering)
    → s.ahead ≡ x ∷ []
    → 0 < length s.tail.bytes
    → s.free ++ release x ∷ [] ≡ f ∷ fs
    → sended s ≡ record s { ahead = s.tail ∷ []; tail = f; free = fs; due = true }
unfolding part_tail head_bytes
sended_turn s x f fs e p k =
    sended-decide s x [] false e (ne→== (length s.tail.bytes) 0 (omega arith))
    ∙ ap (λ l. record (part_tail (record s { ahead = []; free = l })) { due = true }) k

nil_bytes : (l : List ℕ) → length l ≡ 0 → l ≡ []
nil_bytes [] e = refl
nil_bytes (x ∷ l) e = absurd (omega arith)

-- A ring that has released its head has a free buffer.
free-cases :
    (fs : List Gathering) (x : Gathering)
    → AllFree fs
    → (g : Gathering) × (gs : List Gathering) × (fs ++ release x ∷ [] ≡ g ∷ gs)
      × (g.bytes ≡ [])
      × AllFree gs
free-cases [] x h = (release x, [], refl, refl, tt)
free-cases (f ∷ fs) x h = (f, fs ++ release x ∷ [], refl, h.0, AllFree-append fs x h.1)

waiting_eq :
    (s : SendIo) (x : Gathering) (xs : List Gathering)
    → s.ahead ≡ x ∷ xs
    → s.due ≡ false
    → waiting s ≡ flatten xs ++ s.tail.bytes
waiting_eq s x xs e d = λ i. (if d i then flatten (e i) else unsent (e i)) ++ s.tail.bytes

more-Completes :
    (s : SendIo) (x h : Gathering) (hs : List Gathering)
    → IsValid s
    → s.pending ≡ true
    → s.due ≡ false
    → s.ahead ≡ x ∷ h ∷ hs
    → (0 < length h.bytes) × AllFilled hs
    → Completes s (sended s)
more-Completes s x h hs v p d e k = subst (Completes s) (sym (sended_more s x h hs e k.0)) (record {
  accepts = ap (λ w. concat s.sent ++ w) (sym (waiting_eq s x (h ∷ hs) e d));
  sent = refl;
  next = inr (p, refl, omega (arith, ap count_list e));
  valid = record {
    made = v.made;
    unlocked = v.unlocked;
    free = AllFree-append s.free x v.free;
    busy = λ _. k.1;
    idle = λ q. cc (p, q);
  };
})

rest-Completes :
    (s : SendIo) (x : Gathering)
    → IsValid s
    → s.pending ≡ true
    → s.due ≡ false
    → s.ahead ≡ x ∷ []
    → length s.tail.bytes ≡ 0
    → Completes s (sended s)
rest-Completes s x v p d e z = subst (Completes s) (sym (sended_rest s x e z)) (record {
  accepts =
      ap (λ w. concat s.sent ++ w)
        ((λ i. (if d i then [] else []) ++ s.tail.bytes) ∙ sym (waiting_eq s x [] e d));
  sent = refl;
  next = inl refl;
  valid = record {
    made = v.made;
    unlocked = v.unlocked;
    free = AllFree-append s.free x v.free;
    busy = λ q. cc q;
    idle = λ _. (refl, nil_bytes s.tail.bytes z, d);
  };
})

turn-Completes :
    (s : SendIo) (x : Gathering)
    → IsValid s
    → s.pending ≡ true
    → s.due ≡ false
    → s.ahead ≡ x ∷ []
    → 0 < length s.tail.bytes
    → Completes s (sended s)
turn-Completes s x v p d e z =
    let (f, fs, k, empty, free) = free-cases s.free x v.free in
    subst (Completes s) (sym (sended_turn s x f fs e z k)) (record {
      accepts =
          ap (λ w. concat s.sent ++ w)
            (ap (λ l. (s.tail.bytes ++ []) ++ l) empty
              ∙ append-nil (s.tail.bytes ++ [])
              ∙ append-nil s.tail.bytes
              ∙ sym (waiting_eq s x [] e d));
      sent = refl;
      next = inr (p, refl, ground (arith, ap length empty, ap count_list e));
      valid = record {
        made = v.made;
        unlocked = v.unlocked;
        free = free;
        busy = λ _. tt;
        idle = λ q. cc (p, q);
      };
    })

pub sended-Completes :
    (s : SendIo) → IsValid s → s.pending ≡ true → s.due ≡ false → Completes s (sended s)
sended-Completes s v p d = let (x, xs, e, k) = Busy-cases s.ahead (v.busy p) in cases x xs e k
  where
    cases :
        (x : Gathering) (xs : List Gathering)
        → s.ahead ≡ x ∷ xs
        → AllFilled xs
        → Completes s (sended s)
    cases x (h ∷ hs) e k = more-Completes s x h hs v p d e k
    cases x [] e k = elim (Bool-cases (length s.tail.bytes == 0)) [
      | inl z ↦ rest-Completes s x v p d e (==→eq _ _ z)
      | inr z ↦ turn-Completes s x v p d e (omega tests)
    ]

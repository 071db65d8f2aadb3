-- ===== src/Recv/Step.antt =====
-- One packet of Completed: what it hands on, and what it leaves of the buffer.
use network.Prelude.{
  ℕ, ◌≡◌, ◌≤◌, ◌<◌, ◌+◌, ◌-◌, ◌∙◌, ap, sym, refl, inl, inr, true, List, [], ◌∷◌, ◌++◌, length, take,
  drop, arith, length-append, length-take, length-drop, take-take, drop-take, drop-drop,
  drop-length_append, take-length_append, take-append-drop, sub16, u16_at, lt→ltb,
}
use network.Packet.{check, view, header_size, max_size}
use network.Packet.Size.{check_bounds}
use network.Packet.Cipher.{decrypt, scramble, scramble-append, length-scramble}
use network.Recv.{RecvIo, IsValid, on_message, advance, packet_at}
use network.Recv.Frames.{IsPacket, IsPartial, u16_at-append}

pub decrypt-eq :
    (m : List ℕ) (n : ℕ) → n < 32768 → sub16 (u16_at m 0) 4 ≡ n → decrypt m ≡ scramble m 4 n
unfolding decrypt
decrypt-eq m n h e = rw (e, lt→ltb n 32768 h) refl

-- Decrypting a whole packet touches nothing behind it.
decrypt-append : (p y : List ℕ) → IsPacket p → decrypt (p ++ y) ≡ decrypt p ++ y
decrypt-append p y k =
    let (_, _, high) = (check_bounds (view p)).0 k.checked in
    let n : sub16 (u16_at p 0) 4 ≡ length p - 4 = omega (arith, k.whole, k.least) in
    let small : length p - 4 < 32768 = omega (arith, k.whole) in
    decrypt-eq (p ++ y) (length p - 4) small
      (ap (λ v. sub16 v.size 4) (u16_at-append p y k.least) ∙ n)
    ∙ scramble-append p y 4 (length p - 4) (omega (arith, k.least))
    ∙ ap (λ l. l ++ y) (sym (decrypt-eq p (length p - 4) small n))

length-decrypt : (p : List ℕ) → length (decrypt p) ≡ length p
unfolding decrypt
length-decrypt p = length-scramble p 4 _

-- The header of a stream is that of its first four bytes.
pub view-take : (m : List ℕ) (n : ℕ) → header_size ≤ n → n ≤ length m → view m ≡ view (take n m)
view-take m n h l =
    ap view (sym (take-append-drop n m))
    ∙ u16_at-append (take n m) (drop n m) (omega (arith, length-take n m))

-- The packet at the front of `m`, where `inc` bytes of `m` have come.
module _ (m : List ℕ) (inc : ℕ) (here : inc ≤ length m) (least : header_size ≤ inc)
    (ok : check (view m) ≡ true) (full : (view m).size ≤ inc) where
  abbrev n : ℕ
  n = (view m).size

  bounds : (header_size ≤ n) × (n ≤ max_size)
  bounds = let (_, a, b) = (check_bounds (view m)).0 ok in (a, b)

  pub first-IsPacket : IsPacket (take n m)
  first-IsPacket =
      let e = view-take m n bounds.0 (omega arith) in
      let l : length (take n m) ≡ n = omega (arith, length-take n m) in
      record {
        checked = ap check (sym e) ∙ ok;
        least = omega (arith, bounds.0);
        whole = l ∙ ap (λ v. v.size) e;
      }

  pub first-split : take inc m ≡ take n m ++ take (inc - n) (drop n m)
  first-split =
      sym (take-append-drop n (take inc m)) ∙ (λ i. take-take n inc m full i ++ drop-take n inc m i)

  decrypt-first : decrypt m ≡ decrypt (take n m) ++ drop n m
  decrypt-first =
      ap decrypt (sym (take-append-drop n m)) ∙ decrypt-append (take n m) (drop n m) first-IsPacket

  length-decrypt-first : length (decrypt (take n m)) ≡ n
  length-decrypt-first = length-decrypt (take n m) ∙ omega (arith, length-take n m)

  take-decrypt : take n (decrypt m) ≡ decrypt (take n m)
  take-decrypt =
      ap (λ k. take k (decrypt m)) (sym length-decrypt-first)
      ∙ ap (take (length (decrypt (take n m)))) decrypt-first
      ∙ take-length_append (decrypt (take n m)) (drop n m)

  drop-decrypt : drop n (decrypt m) ≡ drop n m
  drop-decrypt =
      ap (λ k. drop k (decrypt m)) (sym length-decrypt-first)
      ∙ ap (drop (length (decrypt (take n m)))) decrypt-first
      ∙ drop-length_append (decrypt (take n m)) (drop n m)

-- What is kept is shorter than any whole packet at its place.
pub partial-lt :
    (m : List ℕ) (k : ℕ)
    → k ≤ length m
    → IsPartial (take k m)
    → header_size ≤ (view m).size
    → k < (view m).size
partial-lt m k h (inl short) l = omega (arith, length-take k m)
partial-lt m k h (inr (a, _, b)) l =
    let e = view-take m k (omega (arith, length-take k m)) h in
    omega (arith, length-take k m, ap (λ v. v.size) e)

-- One packet is handed on: the buffer behind it is as it was.
module _ (s : RecvIo) (inc : ℕ) (v : IsValid s) (room : s.begin_pos + inc ≤ s.size)
    (least : header_size ≤ inc) (ok : check (packet_at s) ≡ true)
    (full : (packet_at s).size ≤ inc) where
  abbrev pub m : List ℕ
  m = drop s.begin_pos s.buf

  abbrev pub s1 : RecvIo
  s1 = advance (packet_at s).size (on_message s)

  pub enough : inc ≤ length m
  enough = omega (arith, length-drop s.begin_pos s.buf, v.storage)

  pub begin-step : s1.begin_pos ≡ s.begin_pos + (packet_at s).size
  unfolding on_message
  begin-step = omega (arith, v.sized)

  pub end-step : s1.end_pos ≡ s.begin_pos + (packet_at s).size
  unfolding on_message
  end-step = omega (arith, v.sized)

  pub messages-step : s1.messages ≡ s.messages ++ decrypt (take (packet_at s).size m) ∷ []
  unfolding on_message
  messages-step = ap (λ p. s.messages ++ p ∷ []) (take-decrypt m inc enough least ok full)

  pub step-IsValid : IsValid s1
  unfolding on_message
  step-IsValid = record {
    storage = omega (
      arith,
      length-append (take s.begin_pos s.buf) (decrypt m),
      length-take s.begin_pos s.buf,
      length-decrypt m,
      length-drop s.begin_pos s.buf,
      v.storage,
      v.order,
      v.fits,
    );
    sized = v.sized;
    order = omega arith;
    fits = omega (arith, v.sized);
  }

  pub buf-step : drop s1.begin_pos s1.buf ≡ drop (packet_at s).size m
  unfolding on_message
  buf-step =
      let front : length (take s.begin_pos s.buf) ≡ s.begin_pos =
        omega (arith, length-take s.begin_pos s.buf, v.storage, v.order, v.fits) in
      sym (
        drop-drop (length (take s.begin_pos s.buf)) (packet_at s).size _
          (take s.begin_pos s.buf ++ decrypt m) (omega (arith, v.sized)))
      ∙ ap (drop (packet_at s).size) (drop-length_append (take s.begin_pos s.buf) (decrypt m))
      ∙ drop-decrypt m inc enough least ok full

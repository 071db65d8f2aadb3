-- ===== src/Ws/Frame.antt =====
-- The frame that HNetWsPacket::operator< makes of a memory block.
use network.Prelude.{
  ℕ, zero, suc, ◌≡◌, ◌≢◌, ◌≤◌, ◌<◌, ◌+◌, ◌-◌, ◌/◌, ◌%◌, ◌∙◌, ap, sym, subst, refl, true, false,
  Option, none, some, List, [], ◌∷◌, ◌++◌, if◌then◌else◌, length, take, drop, blit, u16_at, arith,
  length-take, length-drop, Bool-cases, inl, inr, leb, leb→le, leb→gt, sub16,
}
use network.Packet.{max_size, invalid_type}
use network.Ws.{
  head_size, max_header_size, be16, data_size, is_mask, opcode, ws_size, ws_initialize,
  ws_packet_check, payload_len_127,
}

drop-blit_at :
    (xs : List ℕ) (i n : ℕ) (src : List ℕ)
    → n ≡ i + length src
    → n ≤ length xs
    → drop i (blit xs i src) ≡ src ++ drop n xs
drop-blit_at [] zero zero [] e h = refl
drop-blit_at [] zero (suc n) src e h = absurd (omega arith)
drop-blit_at [] zero zero (s ∷ src) e h = absurd (omega arith)
drop-blit_at [] (suc i) n src e h = absurd (omega arith)
drop-blit_at (x ∷ xs) (suc i) zero src e h = absurd (omega arith)
drop-blit_at (x ∷ xs) (suc i) (suc n) src e h = drop-blit_at xs i n src (omega arith) (omega arith)
drop-blit_at (x ∷ xs) zero zero [] e h = refl
drop-blit_at (x ∷ xs) zero zero (s ∷ src) e h = absurd (omega arith)
drop-blit_at (x ∷ xs) zero (suc n) [] e h = absurd (omega arith)
drop-blit_at (x ∷ xs) zero (suc n) (s ∷ src) e h =
    ap (◌∷◌ s) (drop-blit_at xs 0 n src (omega arith) (omega arith))

take-beyond : (xs ys : List ℕ) (n k : ℕ) → k ≡ length xs + n → take k (xs ++ ys) ≡ xs ++ take n ys
take-beyond [] ys n k e = ap (λ k. take k ys) {x = k} {y = n} (omega arith)
take-beyond (x ∷ xs) ys n zero e = absurd (omega arith)
take-beyond (x ∷ xs) ys n (suc k) e = ap (◌∷◌ x) (take-beyond xs ys n k (omega arith))

pub ws_packet_check_bounds :
    (size type : ℕ)
    → ws_packet_check size type ≡ true
    → (4 ≤ size) × (size ≤ max_size) × (type ≢ invalid_type)
unfolding ws_packet_check
ws_packet_check_bounds size type h = ground arith

-- One binary frame, not masked, whose header says how long it and its data are.
pub record IsFrame (bytes : List ℕ) (n : ℕ) : Type 0 where
  pub sized : ws_size bytes ≡ length bytes
  pub data_sized : data_size bytes ≡ n
  pub unmasked : is_mask bytes ≡ false
  pub binary : opcode bytes ≡ 2

initialize_short : (n : ℕ) → n < 126 → ws_initialize n ≡ 0x82 ∷ n ∷ []
unfolding ws_initialize
initialize_short n h = ground arith

initialize_long : (n : ℕ) → 126 ≤ n → n < 32767 → ws_initialize n ≡ 0x82 ∷ 126 ∷ be16 n
unfolding ws_initialize
initialize_long n l h = ground arith

short-IsFrame :
    (body : List ℕ) → length body < 126 → IsFrame (0x82 ∷ length body ∷ body) (length body)
unfolding ws_size data_size
short-IsFrame body h =
    let n = length body in
    let e : n % 128 ≡ n = omega arith in
    let z : n / 128 % 2 ≡ 0 = omega arith in
    let d : data_size (0x82 ∷ n ∷ body) ≡ n = ground (arith, e) in
    record {
      sized = ground (arith, e, z, d);
      data_sized = d;
      unmasked = ground (arith, z);
      binary = refl;
    }

long-IsFrame :
    (body : List ℕ)
    → length body < 32767
    → IsFrame (0x82 ∷ 126 ∷ be16 (length body) ++ body) (length body)
unfolding ws_size data_size
long-IsFrame body h = record {
  sized = omega arith;
  data_sized = omega arith;
  unmasked = refl;
  binary = refl;
}

-- How long the header is.
length-ws_initialize :
    (n : ℕ)
    → n < 32767
    → length (ws_initialize n)
      ≡ 2 + (if leb payload_len_127 n then 8 else (if leb 126 n then 2 else 0))
unfolding ws_initialize
length-ws_initialize n h = ground arith

initialize-IsFrame :
    (body : List ℕ)
    → length body < 32767
    → IsFrame (ws_initialize (length body) ++ body) (length body)
initialize-IsFrame body h = elim (Bool-cases (leb 126 (length body))) [
  | inl e ↦ rw (initialize_long (length body) (leb→le _ _ e) h) (long-IsFrame body h)
  | inr e ↦ rw (initialize_short (length body) (leb→gt _ _ e)) (short-IsFrame body (leb→gt _ _ e))
]

-- The bytes that operator< makes of a block where `buf` is NULL.
unfoldable pub first_frame : List ℕ → Option (List ℕ)
first_frame block =
    let n = sub16 (u16_at block 8) 2 in
    if ws_packet_check (u16_at block 8) (u16_at block 10)
    then some (
        take (head_size n + n) (
          drop (max_header_size - head_size n)
            (blit block (max_header_size - head_size n) (ws_initialize n))))
    else none

-- What operator< lets through is put behind a header that fits.
pub first_frame-framed :
    (block : List ℕ)
    → ws_packet_check (u16_at block 8) (u16_at block 10) ≡ true
    → 8 + u16_at block 8 ≤ length block
    → let n = u16_at block 8 - 2 in
      first_frame block ≡ some (ws_initialize n ++ take n (drop 10 block))
unfolding first_frame
first_frame-framed block c l =
    let (low, high, _) = ws_packet_check_bounds (u16_at block 8) (u16_at block 10) c in
    let n = u16_at block 8 - 2 in
    let e : sub16 (u16_at block 8) 2 ≡ n = omega arith in
    let k = length-ws_initialize n (omega arith) in
    let short : length (ws_initialize n) ≤ 10 = ground (arith, k) in
    rw (c, e, ← k)
      (ap some (
        ap (take (length (ws_initialize n) + n)) (
          drop-blit_at block (10 - length (ws_initialize n)) 10 (ws_initialize n) (omega arith)
            (omega arith))
        ∙ take-beyond (ws_initialize n) (drop 10 block) n (length (ws_initialize n) + n) refl))

some-injective : {x y : List ℕ} → some x ≡ some y → x ≡ y
some-injective e = cc e

pub first_frame-some :
    (block bytes : List ℕ)
    → first_frame block ≡ some bytes
    → ws_packet_check (u16_at block 8) (u16_at block 10) ≡ true
unfolding first_frame
first_frame-some block bytes e = ground arith

-- The bytes are one binary frame.
pub first_frame-IsFrame :
    (block bytes : List ℕ)
    → 8 + u16_at block 8 ≤ length block
    → first_frame block ≡ some bytes
    → let n = u16_at block 8 - 2 in
      (bytes ≡ ws_initialize n ++ take n (drop 10 block)) × IsFrame bytes n
first_frame-IsFrame block bytes l e =
    let n = u16_at block 8 - 2 in
    let body = take n (drop 10 block) in
    let c = first_frame-some block bytes e in
    let (low, high, _) = ws_packet_check_bounds (u16_at block 8) (u16_at block 10) c in
    let same : length body ≡ n =
      omega (arith, length-take n (drop 10 block), length-drop 10 block) in
    let b : bytes ≡ ws_initialize n ++ body =
      some-injective (sym e ∙ first_frame-framed block c l) in
    let f = initialize-IsFrame body (omega (arith, same)) in
    (b, subst (λ x. IsFrame x n) (sym b) (subst (λ k. IsFrame (ws_initialize k ++ body) k) same f))

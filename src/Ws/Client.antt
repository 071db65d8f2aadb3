-- ===== src/Ws/Client.antt =====
-- A client's frame as RFC 6455 describes it: Size, DataSize, Decrypt and ToPacket read it right.
use Prim.Native.Nat.{bit_xor}
use network.Bits.{bit_xor-bit_xor}
use network.Prelude.{
  ℕ, suc, ◌≡◌, ◌<◌, ◌+◌, ◌-◌, ◌%◌, ◌∙◌, ap, subst, refl, true, List, [], ◌∷◌, ◌++◌, if◌then◌else◌,
  length, take, drop, blit, get_or, le16, arith, Bool-cases, inl, inr, leb, leb→gt,
}
use network.Ws.{be16, data_size, extend_bytes, is_mask, ws_size, ws_decrypt, to_packet, unmask}

-- Byte `i` of the data goes out as it is xor byte `i mod 4` of the masking key.
abbrev pub mask : List ℕ → ℕ → List ℕ → List ℕ
mask key i [] = []
mask key i (x ∷ xs) = bit_xor x (get_or key (i % 4) 0) ∷ mask key (i + 1) xs

-- The mask bit and the length: 7 bits, or 126 and 16 bits.
abbrev pub masked_length : ℕ → List ℕ
masked_length n = if leb 126 n then 254 ∷ be16 n else (128 + n) ∷ []

abbrev pub key_bytes : ℕ → ℕ → ℕ → ℕ → List ℕ
key_bytes j k l m = j ∷ k ∷ l ∷ m ∷ []

-- A frame with `head` as its first byte.
abbrev pub client_frame : ℕ → List ℕ → List ℕ → List ℕ
client_frame head key body = head ∷ masked_length (length body) ++ (key ++ mask key 0 body)

unmask-mask :
    (key : List ℕ) (i : ℕ) (body rest : List ℕ)
    → unmask key i (length body) (mask key i body ++ rest) ≡ body ++ rest
unfolding unmask
unmask-mask key i [] rest = refl
unmask-mask key i (x ∷ xs) rest =
    λ j. bit_xor-bit_xor x (get_or key (i % 4) 0) j ∷ unmask-mask key (i + 1) xs rest j

pub length-mask : (key : List ℕ) (i : ℕ) (body : List ℕ) → length (mask key i body) ≡ length body
length-mask key i [] = refl
length-mask key i (x ∷ xs) = ap suc (length-mask key (i + 1) xs)

-- What a header says whose second byte is `b`: the extension, the mask and the data's size.
record Says (m : List ℕ) (extend n : ℕ) : Type 0 where
  extends : extend_bytes m ≡ extend
  masked : is_mask m ≡ true
  sized : data_size m ≡ n

short-Says : (h n : ℕ) (m : List ℕ) → n < 126 → Says (h ∷ (128 + n) ∷ m) 0 n
unfolding data_size
short-Says h n m p =
    let e : (128 + n) % 128 ≡ n = omega arith in
    record { extends = ground (arith, e); masked = ground arith; sized = ground (arith, e) }

long-Says : (h n : ℕ) (m : List ℕ) → n < 65536 → Says (h ∷ 254 ∷ be16 n ++ m) 2 n
unfolding data_size
long-Says h n m p = record { extends = refl; masked = refl; sized = omega arith }

size-Says :
    (m : List ℕ) (extend n : ℕ)
    → Says m extend n
    → 6 + extend + n < 65536
    → ws_size m ≡ 6 + extend + n
unfolding ws_size
size-Says m extend n s h = rw (s.extends, s.masked, s.sized) (omega arith)

-- The first byte and the length are enough for the size.
pub ws_size-header :
    (h n : ℕ) (m : List ℕ)
    → n < 65528
    → ws_size (h ∷ masked_length n ++ m) ≡ 5 + length (masked_length n) + n
ws_size-header h n m p = elim (Bool-cases (leb 126 n)) [
  | inl e ↦
      rw e (size-Says (h ∷ 254 ∷ be16 n ++ m) 2 n (long-Says h n m (omega arith)) (omega arith))
  | inr e ↦ rw e (size-Says (h ∷ (128 + n) ∷ m) 0 n (short-Says h n m (leb→gt _ _ e)) (omega arith))
]

decrypt-Says :
    (m : List ℕ) (extend n : ℕ)
    → Says m extend n
    → ws_decrypt m ≡ (
      2 + extend + 4,
      take (2 + extend + 4) m
          ++ unmask (take 4 (drop (2 + extend) m)) 0 n (drop (2 + extend + 4) m),
    )
unfolding ws_decrypt
decrypt-Says m extend n s = rw (s.extends, s.masked, s.sized) refl

-- What Decrypt and ToPacket make of a frame of `size` bytes in front of `rest`.
pub record Opened (m body rest : List ℕ) (size : ℕ) : Type 0 where
  pub size_eq : ws_size m ≡ size
  pub data_size_eq : data_size m ≡ length body
  pub data_eq : (let (at, m') = ws_decrypt m in drop at m') ≡ body ++ rest
  pub packet_eq : (let (at, m') = to_packet m in drop at m') ≡ le16 size ++ (body ++ rest)
  -- Completed asks for the size again, to go on behind the frame.
  pub size_after : ws_size (to_packet m).1 ≡ size

-- ToPacket after Decrypt has left `at` and `m'`.
to_packet-decrypt :
    (m m' : List ℕ) (at size : ℕ)
    → ws_decrypt m ≡ (at, m')
    → ws_size m' ≡ size
    → to_packet m ≡ (at - 2, blit m' (at - 2) (le16 size))
unfolding to_packet
to_packet-decrypt m m' at size e s =
    ap (λ p. let (at, m') = p in (at - 2, blit m' (at - 2) (le16 (ws_size m')))) e
    ∙ ap (λ z. (at - 2, blit m' (at - 2) (le16 z))) s

blit-nil : (xs : List ℕ) → blit xs 0 [] ≡ xs
blit-nil [] = refl
blit-nil (x ∷ xs) = refl

module _ (h j k l q : ℕ) (body rest : List ℕ) (small : length body < 65528) where
  abbrev coded : List ℕ
  coded = mask (key_bytes j k l q) 0 body ++ rest

  short-Opened :
      length body < 126
      → Opened
          (h ∷ (128 + length body) ∷ key_bytes j k l q ++ coded)
          body
          rest
          (6 + 0 + length body)
  short-Opened p =
      let n = length body in
      let m' = h ∷ (128 + n) ∷ key_bytes j k l q ++ (body ++ rest) in
      let s = short-Says h n (key_bytes j k l q ++ coded) p in
      let d : ws_decrypt (h ∷ (128 + n) ∷ key_bytes j k l q ++ coded) ≡ (6, m') =
        decrypt-Says (h ∷ (128 + n) ∷ key_bytes j k l q ++ coded) 0 n s ∙ (λ i. (
          6,
          h ∷ (128 + n) ∷ key_bytes j k l q ++ unmask-mask (key_bytes j k l q) 0 body rest i,
        )) in
      let size' : ws_size m' ≡ 6 + 0 + n =
        size-Says m' 0 n (short-Says h n (key_bytes j k l q ++ (body ++ rest)) p) (omega arith) in
      let t =
        to_packet-decrypt (h ∷ (128 + n) ∷ key_bytes j k l q ++ coded) m' 6 (6 + 0 + n) d size'
        ∙ (λ i. (4, h ∷ (128 + n) ∷ j ∷ k ∷ le16 (6 + 0 + n) ++ blit-nil (body ++ rest) i)) in
      record {
        size_eq = size-Says _ 0 n s (omega arith);
        data_size_eq = s.sized;
        data_eq = ap (λ p. drop p.0 p.1) d;
        packet_eq = ap (λ p. drop p.0 p.1) t;
        size_after =
            ap (λ p. ws_size p.1) t
            ∙ size-Says _ 0 n (short-Says h n (j ∷ k ∷ le16 (6 + 0 + n) ++ (body ++ rest)) p)
                (omega arith);
      }

  long-Opened :
      Opened
        (h ∷ 254 ∷ be16 (length body) ++ (key_bytes j k l q ++ coded))
        body
        rest
        (6 + 2 + length body)
  long-Opened =
      let n = length body in
      let m = h ∷ 254 ∷ be16 n ++ (key_bytes j k l q ++ coded) in
      let m' = h ∷ 254 ∷ be16 n ++ (key_bytes j k l q ++ (body ++ rest)) in
      let s = long-Says h n (key_bytes j k l q ++ coded) (omega arith) in
      let d : ws_decrypt m ≡ (8, m') = decrypt-Says m 2 n s ∙ (λ i. (
        8,
        h ∷ 254 ∷ be16 n ++ (key_bytes j k l q ++ unmask-mask (key_bytes j k l q) 0 body rest i),
      )) in
      let size' : ws_size m' ≡ 6 + 2 + n =
        size-Says m' 2 n (long-Says h n (key_bytes j k l q ++ (body ++ rest)) (omega arith))
          (omega arith) in
      let t =
        to_packet-decrypt m m' 8 (6 + 2 + n) d size'
        ∙ (λ i. (6, h ∷ 254 ∷ be16 n ++ (j ∷ k ∷ le16 (6 + 2 + n) ++ blit-nil (body ++ rest) i))) in
      record {
        size_eq = size-Says m 2 n s (omega arith);
        data_size_eq = s.sized;
        data_eq = ap (λ p. drop p.0 p.1) d;
        packet_eq = ap (λ p. drop p.0 p.1) t;
        size_after =
            ap (λ p. ws_size p.1) t
            ∙ size-Says _ 2 n
                (long-Says h n (j ∷ k ∷ le16 (6 + 2 + n) ++ (body ++ rest)) (omega arith))
                (omega arith);
      }

-- For a frame that a client makes as RFC 6455 says (mask bit, a length of 7 or of 16 bits, a
-- masking key of four bytes, fewer than 65528 bytes of data masked with it), whatever lies behind
-- it: Size is the frame's length, DataSize the data's, Decrypt gives the data back, ToPacket gives
-- a packet with the frame's length as its size and the data behind it, and Size is still right
-- afterwards.
pub client_frame-Opened :
    (h j k l q : ℕ) (body rest : List ℕ)
    → length body < 65528
    → let frame = client_frame h (key_bytes j k l q) body in
      Opened (frame ++ rest) body rest (length frame)
client_frame-Opened h j k l q body rest small = elim (Bool-cases (leb 126 (length body))) [
  | inl e ↦
      let g = length-mask (key_bytes j k l q) 0 body in
      rw e (
        subst
          (Opened
            (h ∷ 254 ∷ be16 (length body) ++ (key_bytes j k l q ++ coded h j k l q body rest small))
            body rest)
          (omega (arith, g)) (long-Opened h j k l q body rest small))
  | inr e ↦
      let g = length-mask (key_bytes j k l q) 0 body in
      rw e (
        subst
          (Opened (h ∷ (128 + length body) ∷ key_bytes j k l q ++ coded h j k l q body rest small)
            body rest)
          (omega (arith, g)) (short-Opened h j k l q body rest small (leb→gt _ _ e)))
]

-- ===== src/Packet/Cipher.antt =====
-- HNet::_Encrypt and HNet::_Decrypt (Network/HNet.cpp), and WsaSend's flag (Network/HNetPacket.cpp).
use Prim.Native.Nat.{bit_xor}
use network.Bits.{bit_xor-bit_xor}
use network.Prelude.{
  ℕ, zero, suc, ◌≡◌, ◌≤◌, ◌<◌, ◌+◌, ◌-◌, refl, ap, Bool, true, false, not, List, [], ◌∷◌, ◌++◌,
  length, arith, ltb, if◌then◌else◌, wrap16, sub16, u16_at, get_or-append, lt→ltb,
}
use network.Packet.{view, lenth, header_size}

-- `buf[i] ^= 0xEE` for `n` bytes from an index on.
unfoldable pub scramble : List ℕ → ℕ → ℕ → List ℕ
scramble [] i n = []
scramble (x ∷ xs) (suc i) n = x ∷ scramble xs i n
scramble (x ∷ xs) zero zero = x ∷ xs
scramble (x ∷ xs) zero (suc n) = bit_xor x 0xEE ∷ scramble xs zero n

-- WsaSend: the `len` bytes at `buf`, and `_encrypt`.
pub record WsaSend : Type 0 where
  pub bytes : List ℕ
  pub encrypted : Bool

-- WsaSend::NotEncrypt
unfoldable pub not_encrypt : WsaSend → Bool × WsaSend
not_encrypt w = if w.encrypted then (false, w) else (true, record w { encrypted = true })

-- WsaSend::BodyLenth: a ULONG subtraction, cut to a USHORT.
abbrev pub body_lenth : WsaSend → ℕ
body_lenth w = wrap16 (length w.bytes + 4294967296 - header_size)

-- HNet::_Encrypt
unfoldable pub encrypt : WsaSend → WsaSend
encrypt w =
    let (fresh, w') = not_encrypt w in
    if not fresh then w' else record w' { bytes = scramble w'.bytes header_size (body_lenth w') }

-- HNet::_Decrypt of the message at the start of `memory`. Its length is passed as a SHORT.
unfoldable pub decrypt : List ℕ → List ℕ
decrypt memory =
    let n = lenth (view memory) in scramble memory header_size (if ltb n 32768 then n else 0)

scramble-scramble : (xs : List ℕ) (i n : ℕ) → scramble (scramble xs i n) i n ≡ xs
unfolding scramble
scramble-scramble [] i n = refl
scramble-scramble (x ∷ xs) (suc i) n = ap (◌∷◌ x) (scramble-scramble xs i n)
scramble-scramble (x ∷ xs) zero zero = refl
scramble-scramble (x ∷ xs) zero (suc n) =
    λ j. bit_xor-bit_xor x 0xEE j ∷ scramble-scramble xs zero n j

pub scramble-append :
    (xs ys : List ℕ) (i n : ℕ) → i + n ≤ length xs → scramble (xs ++ ys) i n ≡ scramble xs i n ++ ys
unfolding scramble
scramble-append [] [] i n h = refl
scramble-append [] (y ∷ ys) zero zero h = refl
scramble-append [] (y ∷ ys) zero (suc n) h = absurd (omega arith)
scramble-append [] (y ∷ ys) (suc i) n h = absurd (omega arith)
scramble-append (x ∷ xs) ys (suc i) n h = ap (◌∷◌ x) (scramble-append xs ys i n (omega arith))
scramble-append (x ∷ xs) ys zero zero h = refl
scramble-append (x ∷ xs) ys zero (suc n) h =
    ap (◌∷◌ (bit_xor x 0xEE)) (scramble-append xs ys zero n (omega arith))

pub length-scramble : (xs : List ℕ) (i n : ℕ) → length (scramble xs i n) ≡ length xs
unfolding scramble
length-scramble [] i n = refl
length-scramble (x ∷ xs) (suc i) n = ap suc (length-scramble xs i n)
length-scramble (x ∷ xs) zero zero = refl
length-scramble (x ∷ xs) zero (suc n) = ap suc (length-scramble xs zero n)

-- The header goes in the clear.
u16_at-scramble :
    (xs : List ℕ) (n : ℕ)
    → (u16_at (scramble xs 4 n) 0 ≡ u16_at xs 0) × (u16_at (scramble xs 4 n) 2 ≡ u16_at xs 2)
unfolding scramble
u16_at-scramble [] n = (refl, refl)
u16_at-scramble (a ∷ []) n = (refl, refl)
u16_at-scramble (a ∷ b ∷ []) n = (refl, refl)
u16_at-scramble (a ∷ b ∷ c ∷ []) n = (refl, refl)
u16_at-scramble (a ∷ b ∷ c ∷ d ∷ xs) n = (refl, refl)

-- A message that announces its own length, of at least a header and fewer than 32772 bytes, is
-- decrypted back from its encryption, whatever lies behind it in the receiver's buffer.
pub decrypt-encrypt :
    (bytes rest : List ℕ)
    → u16_at bytes 0 ≡ length bytes
    → header_size ≤ length bytes
    → length bytes < 32772
    → decrypt ((encrypt (record { bytes = bytes; encrypted = false })).bytes ++ rest)
      ≡ bytes ++ rest
unfolding decrypt encrypt not_encrypt
decrypt-encrypt bytes rest e l h =
    let n : ℕ = length bytes - 4 in
    let xs = scramble bytes 4 n in
    let b : wrap16 (length bytes + 4294967296 - 4) ≡ n = omega arith in
    let k = length-scramble bytes 4 n in
    let m : sub16 (u16_at (xs ++ rest) 0) 4 ≡ n = omega (
      arith,
      get_or-append xs rest 0 0 (omega arith),
      get_or-append xs rest 1 0 (omega arith),
      (u16_at-scramble bytes n).0,
    ) in
    rw (b, m, lt→ltb n 32768 (omega arith), scramble-append xs rest 4 n (omega arith))
      (ap (λ l. l ++ rest) (scramble-scramble bytes 4 n))

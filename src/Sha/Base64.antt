-- ===== src/Sha/Base64.antt =====
-- ToBase64 against the decoding of RFC 4648.
use network.Prelude.{
  ℕ, suc, ◌≡◌, ◌<◌, ◌+◌, ◌*◌, ◌/◌, ◌%◌, ◌∙◌, refl, ap, Bool, true, false, not, List, [], ◌∷◌, ◌++◌,
  arith, if◌then◌else◌, ◌==◌, ==→eq,
}
use Prim.Native.Nat.{bit_and, bit_or}
use network.Sha.{Hash, basis, basis_64, equals_sign, encode}
use network.Sha.Reference.{word_octets}
use network.Sha.Filling.{all_below-test}
use network.Sha.Loop.{AllBytes}

-- Where a character stands in the alphabet.
abbrev pub position : List ℕ → ℕ → ℕ
position [] c = 0
position (x ∷ xs) c = if x == c then 0 else suc (position xs c)

unfoldable pub value : ℕ → ℕ
value c = position basis_64 c

-- Four characters at a time.
unfoldable pub decode : List ℕ → List ℕ
decode (p ∷ q ∷ r ∷ s ∷ rest) =
    let one = value p * 4 + value q / 16 in
    let two = value q % 16 * 16 + value r / 4 in
    let three = value r % 4 * 64 + value s in
    let more = decode rest in
    if s == equals_sign
    then (if r == equals_sign then one ∷ [] else one ∷ two ∷ [])
    else one ∷ two ∷ three ∷ more
decode _ = []

decode_empty : decode [] ≡ []
unfolding decode
decode_empty = refl

value-basis : (i : ℕ) → i < 64 → value (basis i) ≡ i
unfolding value basis
value-basis i h = ==→eq (value (basis i)) i (all_below-test 64 (λ j. value (basis j) == j) refl i h)

not-true : (b : Bool) → not b ≡ true → b ≡ false
not-true true e = cc e
not-true false e = refl

basis-sign : (i : ℕ) → i < 64 → (basis i == equals_sign) ≡ false
unfolding basis
basis-sign i h =
    not-true (basis i == equals_sign)
      (all_below-test 64 (λ j. not (basis j == equals_sign)) refl i h)

-- The masks of ToBase64 on bytes.
abbrev Masks : ℕ → Type 0
Masks x =
    (bit_and (x / 4) 63 ≡ x / 4)
    × (bit_and x 3 ≡ x % 4)
    × (bit_and x 240 / 16 ≡ x / 16)
    × (bit_and x 15 ≡ x % 16)
    × (bit_and x 192 / 64 ≡ x / 64)
    × (bit_and x 63 ≡ x % 64)

byte-Masks : (x : ℕ) → x < 256 → Masks x
byte-Masks x h = (
  ==→eq _ _ (all_below-test 256 (λ j. bit_and (j / 4) 63 == j / 4) refl x h),
  ==→eq _ _ (all_below-test 256 (λ j. bit_and j 3 == j % 4) refl x h),
  ==→eq _ _ (all_below-test 256 (λ j. bit_and j 240 / 16 == j / 16) refl x h),
  ==→eq _ _ (all_below-test 256 (λ j. bit_and j 15 == j % 16) refl x h),
  ==→eq _ _ (all_below-test 256 (λ j. bit_and j 192 / 64 == j / 64) refl x h),
  ==→eq _ _ (all_below-test 256 (λ j. bit_and j 63 == j % 64) refl x h),
)

-- Two bits before four, and four before two.
bit_or-16 : (n : ℕ) → n < 64 → bit_or (n / 16 * 16) (n % 16) ≡ n
bit_or-16 n h = ==→eq _ n (all_below-test 64 (λ j. bit_or (j / 16 * 16) (j % 16) == j) refl n h)

bit_or-4 : (n : ℕ) → n < 64 → bit_or (n / 4 * 4) (n % 4) ≡ n
bit_or-4 n h = ==→eq _ n (all_below-test 64 (λ j. bit_or (j / 4 * 4) (j % 4) == j) refl n h)

-- The first byte, and the first two bits of the second one, and so on.
second_group :
    (x y : ℕ)
    → x < 256
    → y < 256
    → bit_or (bit_and x 3 * 16) (bit_and y 240 / 16) ≡ x % 4 * 16 + y / 16
second_group x y h g =
    let n : ℕ = x % 4 * 16 + y / 16 in
    (λ i. bit_or ((byte-Masks x h).1 i * 16) ((byte-Masks y g).2 i))
    ∙ (λ i. bit_or (high i * 16) (low i))
    ∙ bit_or-16 n (omega (arith, h, g))
  where
    high : x % 4 ≡ (x % 4 * 16 + y / 16) / 16
    high = omega (arith, g)

    low : y / 16 ≡ (x % 4 * 16 + y / 16) % 16
    low = omega (arith, g)

third_group :
    (y z : ℕ)
    → y < 256
    → z < 256
    → bit_or (bit_and y 15 * 4) (bit_and z 192 / 64) ≡ y % 16 * 4 + z / 64
third_group y z h g =
    let n : ℕ = y % 16 * 4 + z / 64 in
    (λ i. bit_or ((byte-Masks y h).3 i * 4) ((byte-Masks z g).4 i))
    ∙ (λ i. bit_or (high i * 4) (low i))
    ∙ bit_or-4 n (omega (arith, h, g))
  where
    high : y % 16 ≡ (y % 16 * 4 + z / 64) / 4
    high = omega (arith, g)

    low : z / 64 ≡ (y % 16 * 4 + z / 64) % 4
    low = omega (arith, g)

decode_three :
    (a b c d : ℕ) (rest : List ℕ)
    → a < 64
    → b < 64
    → c < 64
    → d < 64
    → decode (basis a ∷ basis b ∷ basis c ∷ basis d ∷ rest)
      ≡ (a * 4 + b / 16) ∷ (b % 16 * 16 + c / 4) ∷ (c % 4 * 64 + d) ∷ decode rest
unfolding decode
decode_three a b c d rest e f g h =
    rw (value-basis a e, value-basis b f, value-basis c g, value-basis d h, basis-sign d h) refl

decode_two :
    (a b c : ℕ)
    → a < 64
    → b < 64
    → c < 64
    → decode (basis a ∷ basis b ∷ basis c ∷ equals_sign ∷ [])
      ≡ (a * 4 + b / 16) ∷ (b % 16 * 16 + c / 4) ∷ []
unfolding decode
decode_two a b c e f g = rw (value-basis a e, value-basis b f, value-basis c g, basis-sign c g) refl

decode_one :
    (a b : ℕ)
    → a < 64
    → b < 64
    → decode (basis a ∷ basis b ∷ equals_sign ∷ equals_sign ∷ []) ≡ (a * 4 + b / 16) ∷ []
unfolding decode
decode_one a b e f = rw (value-basis a e, value-basis b f) refl

-- What ToBase64 makes of bytes, RFC 4648 decodes to them.
pub decode-encode : (bs : List ℕ) → AllBytes bs → decode (encode bs) ≡ bs
unfolding encode
decode-encode [] h = decode_empty
decode-encode (x ∷ []) (h, _) =
    let m = byte-Masks x h in
    (λ i. decode (basis (m.0 i) ∷ basis (m.1 i * 16) ∷ equals_sign ∷ equals_sign ∷ []))
    ∙ decode_one (x / 4) (x % 4 * 16) (omega (arith, h)) (omega arith)
    ∙ ap (λ n. n ∷ []) {x = x / 4 * 4 + x % 4 * 16 / 16} {y = x} (omega arith)
decode-encode (x ∷ y ∷ []) (h, (g, _)) =
    let b : ℕ = x % 4 * 16 + y / 16 in
    let c : ℕ = y % 16 * 4 in
    let m = byte-Masks x h in
    let n = byte-Masks y g in
    let s = second_group x y h g in
    let first : x / 4 * 4 + b / 16 ≡ x = omega (arith, g) in
    let second : b % 16 * 16 + c / 4 ≡ y = omega (arith, g) in
    (λ i. decode (basis (m.0 i) ∷ basis (s i) ∷ basis (n.3 i * 4) ∷ equals_sign ∷ []))
    ∙ decode_two (x / 4) b c (omega (arith, h)) (omega (arith, g)) (omega arith)
    ∙ (λ i. first i ∷ second i ∷ [])
decode-encode (x ∷ y ∷ z ∷ rest) (h, (g, (k, small))) =
    let b : ℕ = x % 4 * 16 + y / 16 in
    let c : ℕ = y % 16 * 4 + z / 64 in
    let m = byte-Masks x h in
    let n = byte-Masks z k in
    let s = second_group x y h g in
    let t = third_group y z g k in
    let first : x / 4 * 4 + b / 16 ≡ x = omega (arith, g) in
    let second : b % 16 * 16 + c / 4 ≡ y = omega (arith, g, k) in
    let third : c % 4 * 64 + z % 64 ≡ z = omega (arith, k) in
    (λ i. decode (basis (m.0 i) ∷ basis (s i) ∷ basis (t i) ∷ basis (n.5 i) ∷ encode rest))
    ∙ decode_three (x / 4) b c (z % 64) (encode rest) (omega (arith, h)) (omega (arith, g))
        (omega (arith, k)) (omega arith)
    ∙ (λ i. first i ∷ second i ∷ third i ∷ decode-encode rest small i)

-- The bytes of SHA-1.
abbrev pub digest : Hash → List ℕ
digest v =
    word_octets v.a ++ word_octets v.b ++ word_octets v.c ++ word_octets v.d ++ word_octets v.e

-- ===== src/Bits.antt =====
-- Bitwise exclusive or at variables: it undoes itself, at every width.
use Prim.Native.Nat.{
  ℕ, zero, suc, ◌+◌, ◌*◌, ◌/◌, ◌%◌, ◌≤◌, ◌<◌, bit_xor, digits, differ, bit_xor-bitwise,
}
use mathlib.Core.Path.{◌≡◌, refl, ap, ◌∙◌}
use native.Mathlib.Omega.{arith}

abbrev xor_digits : ℕ → ℕ → ℕ → ℕ
xor_digits n a b = digits (λ b. b) differ n a b

xor_digits_enough : (n m a b : ℕ) → a ≤ n → a ≤ m → xor_digits n a b ≡ xor_digits m a b
xor_digits_enough zero zero a b p q = refl
xor_digits_enough zero (suc m) zero b p q = refl
xor_digits_enough zero (suc m) (suc a) b p q = absurd (omega arith)
xor_digits_enough (suc n) zero zero b p q = refl
xor_digits_enough (suc n) zero (suc a) b p q = absurd (omega arith)
xor_digits_enough (suc n) (suc m) zero b p q = refl
xor_digits_enough (suc n) (suc m) (suc a) b p q =
    omega (arith, xor_digits_enough n m (suc a / 2) (b / 2) (omega arith) (omega arith))

zero-bit_xor : (b : ℕ) → bit_xor 0 b ≡ b
zero-bit_xor b = bit_xor-bitwise 0 b

bit_xor_step : (a b : ℕ) → bit_xor a b ≡ bit_xor (a / 2) (b / 2) * 2 + differ (a % 2) (b % 2)
bit_xor_step zero b = omega (arith, zero-bit_xor b, zero-bit_xor (b / 2))
bit_xor_step (suc a) b = omega (
  arith,
  bit_xor-bitwise (suc a) b,
  bit_xor-bitwise (suc a / 2) (b / 2),
  xor_digits_enough a (suc a / 2) (suc a / 2) (b / 2) (omega arith) (omega arith),
)

differ_digits : (x y : ℕ) → x < 2 → y < 2 → (differ x y < 2) × (differ (differ x y) y ≡ x)
differ_digits zero zero p q = omega arith
differ_digits zero (suc zero) p q = omega arith
differ_digits zero (suc (suc y)) p q = absurd (omega arith)
differ_digits (suc zero) zero p q = omega arith
differ_digits (suc zero) (suc zero) p q = omega arith
differ_digits (suc zero) (suc (suc y)) p q = absurd (omega arith)
differ_digits (suc (suc x)) y p q = absurd (omega arith)

bit_xor-bit_xor_below : (n a k : ℕ) → a ≤ n → k ≤ n → bit_xor (bit_xor a k) k ≡ a
bit_xor-bit_xor_below zero zero zero p q = refl
bit_xor-bit_xor_below zero zero (suc k) p q = absurd (omega arith)
bit_xor-bit_xor_below zero (suc a) k p q = absurd (omega arith)
bit_xor-bit_xor_below (suc n) a k p q =
    let (small, back) = differ_digits (a % 2) (k % 2) (omega arith) (omega arith) in
    let c : bit_xor a k ≡ bit_xor (a / 2) (k / 2) * 2 + differ (a % 2) (k % 2) = bit_xor_step a k in
    let half : bit_xor a k / 2 ≡ bit_xor (a / 2) (k / 2) = omega arith in
    let odd : bit_xor a k % 2 ≡ differ (a % 2) (k % 2) = omega arith in
    let e : bit_xor (bit_xor a k / 2) (k / 2) ≡ a / 2 =
      ap (λ h. bit_xor h (k / 2)) half
      ∙ bit_xor-bit_xor_below n (a / 2) (k / 2) (omega arith) (omega arith) in
    let d : differ (bit_xor a k % 2) (k % 2) ≡ a % 2 = ap (λ x. differ x (k % 2)) odd ∙ back in
    omega (arith, bit_xor_step (bit_xor a k) k)

pub bit_xor-bit_xor : (a k : ℕ) → bit_xor (bit_xor a k) k ≡ a
bit_xor-bit_xor a k = bit_xor-bit_xor_below (a + k) a k (omega arith) (omega arith)

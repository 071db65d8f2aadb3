-- ===== src/Sha/Filling.antt =====
-- What has been written to `_block`, and the bits of small numbers.
use network.Prelude.{
  ℕ, zero, suc, ◌≡◌, ◌≤◌, ◌<◌, ◌+◌, ◌∙◌, refl, ap, sym, subst, Bool, true, false, List, [], ◌∷◌,
  ◌++◌, length, take, set, arith, length-append, length-set, take-all, append_assoc, append-nil,
  replicate, ◌==◌, ==→eq, if◌then◌else◌, inl, inr, Bool-cases,
}
use Prim.Native.Nat.{bit_and}
use native.Mathlib.Decide.{ℕ_discrete}
use network.Sha.{Sha1, put_byte, put_zeros, put_bytes, mask32}

take-set :
    {A : Type 0} (xs : List A) (i : ℕ) (v : A)
    → i < length xs
    → take (suc i) (set xs i v) ≡ take i xs ++ v ∷ []
take-set [] i v h = absurd (omega (arith, h))
take-set (x ∷ xs) zero v h = refl
take-set (x ∷ xs) (suc i) v h = ap (◌∷◌ x) (take-set xs i v (omega (arith, h)))

-- The block starts with `written`, and nothing else has been written since it was last processed.
pub record Holds (s : Sha1) (written : List ℕ) : Type 0 where
  pub storage : length s.block ≡ 64
  pub index : s.block_index ≡ length written
  pub front : take s.block_index s.block ≡ written

pub put-Holds :
    (s : Sha1) (written : List ℕ) (v : ℕ)
    → Holds s written
    → length written < 64
    → Holds (put_byte v s) (written ++ v ∷ [])
put-Holds s written v h f = record {
  storage = length-set s.block s.block_index v ∙ h.storage;
  index = omega (arith, h.index, length-append written (v ∷ []));
  front =
      ap (λ n. take n (set s.block s.block_index v)) {x = s.block_index + 1} {y = suc s.block_index}
        (omega arith)
      ∙ take-set s.block s.block_index v (omega (arith, h.storage, h.index, f))
      ∙ ap (λ l. l ++ v ∷ []) h.front;
}

pub zeros-Holds :
    (n : ℕ) (s : Sha1) (written : List ℕ)
    → Holds s written
    → length written + n ≤ 64
    → Holds (put_zeros n s) (written ++ replicate n 0)
unfolding put_zeros replicate
zeros-Holds zero s written h f = subst (Holds s) (sym (append-nil written)) h
zeros-Holds (suc n) s written h f =
    subst (Holds (put_zeros n (put_byte 0 s))) (append_assoc written (0 ∷ []) (replicate n 0)) (
      zeros-Holds n (put_byte 0 s) (written ++ 0 ∷ []) (put-Holds s written 0 h (omega (arith, f)))
        (omega (arith, f, length-append written (0 ∷ []))))

-- Writing zeros changes nothing else.
pub zeros-hash :
    (n : ℕ) (s : Sha1)
    → ((put_zeros n s).hash ≡ s.hash)
      × ((put_zeros n s).length_low ≡ s.length_low)
      × ((put_zeros n s).length_high ≡ s.length_high)
unfolding put_zeros
zeros-hash zero s = (refl, refl, refl)
zeros-hash (suc n) s = zeros-hash n (put_byte 0 s)

pub Holds-full :
    (s : Sha1) (written : List ℕ) → Holds s written → length written ≡ 64 → s.block ≡ written
Holds-full s written h e =
    sym (take-all s.block_index s.block (omega (arith, h.storage, h.index, e))) ∙ h.front

pub put_bytes-front :
    (bs : List ℕ) (i : ℕ) (block written : List ℕ)
    → i + length bs ≤ length block
    → take i block ≡ written
    → (length (put_bytes bs i block) ≡ length block)
      × (take (i + length bs) (put_bytes bs i block) ≡ written ++ bs)
put_bytes-front [] i block written h e =
    (refl, ap (λ n. take n block) {x = i + 0} {y = i} (omega arith) ∙ e ∙ sym (append-nil written))
put_bytes-front (b ∷ bs) i block written h e =
    let (l, f) =
      put_bytes-front bs (i + 1) (set block i b) (written ++ b ∷ [])
        (omega (arith, h, length-set block i b))
        (ap (λ n. take n (set block i b)) {x = i + 1} {y = suc i} (omega arith)
          ∙ take-set block i b (omega (arith, h))
          ∙ ap (λ k. k ++ b ∷ []) e) in
    (
      l ∙ length-set block i b,
      ap (λ n. take n (put_bytes bs (i + 1) (set block i b))) {x = i + suc (length bs)}
            {y = i + 1 + length bs} (omega arith)
          ∙ f
          ∙ append_assoc written (b ∷ []) bs,
    )

-- A test of all numbers below a bound.
abbrev pub all_below : ℕ → (ℕ → Bool) → Bool
all_below zero test = true
all_below (suc n) test = if test n then all_below n test else false

pub all_below-test :
    (n : ℕ) (test : ℕ → Bool) → all_below n test ≡ true → (i : ℕ) → i < n → test i ≡ true
all_below-test zero test e i h = absurd (omega (arith, h))
all_below-test (suc n) test e i h = elim (Bool-cases (test n)) [
  | inl y ↦ elim (ℕ_discrete i n) [
    | yes same ↦ ap test same ∙ y
    | no other ↦
        all_below-test n test (sym (ap (λ b. if b then all_below n test else false) y) ∙ e) i
          (omega (arith, h, other))
  ]
  | inr no_more ↦ cc (e, no_more)
]

pub byte_mask : (b : ℕ) → b < 256 → bit_and b 255 ≡ b
byte_mask b h = ==→eq (bit_and b 255) b (all_below-test 256 (λ i. bit_and i 255 == i) refl b h)

pub length_mask : (n : ℕ) → n < 520 → bit_and n mask32 ≡ n
length_mask n h =
    ==→eq (bit_and n mask32) n (all_below-test 520 (λ i. bit_and i mask32 == i) refl n h)

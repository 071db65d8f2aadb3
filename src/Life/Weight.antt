-- ===== src/Life/Weight.antt =====
-- Weighted sums over the parts that the threads have still to run, and how a step changes them.
use network.Prelude.{ℕ, ◌≡◌, ◌≤◌, ◌+◌, ap, List, [], ◌∷◌, ◌++◌, length, length-append, arith}
use network.Life.{Act, Io, weigh}

pub weigh-append : (w : Act → ℕ) (j k : List Act) → weigh w (j ++ k) ≡ weigh w j + weigh w k
weigh-append w [] k = omega arith
weigh-append w (a ∷ j) k = omega (arith, weigh-append w j k)

module _ {ℓ} {A : Type ℓ} (w : A → ℕ) where
  abbrev pub sum : List A → ℕ
  sum [] = 0
  sum (x ∷ xs) = w x + sum xs

  pub sum-append : (xs ys : List A) → sum (xs ++ ys) ≡ sum xs + sum ys
  sum-append [] ys = omega arith
  sum-append (x ∷ xs) ys = omega (arith, sum-append xs ys)

  -- One element of a list, and the sum of the others.
  pub sum-split : (xs : List A) (x : A) (ys : List A) → sum (xs ++ x ∷ ys) ≡ w x + (sum xs + sum ys)
  sum-split xs x ys = omega (arith, sum-append xs (x ∷ ys))

-- What all threads weigh together.
abbrev pub weight : (Act → ℕ) → List (List Act) → ℕ
weight w threads = sum (weigh w) threads

-- Replacing the front part of one thread.
pub weight-run :
    (w : Act → ℕ) (xs : List (List Act)) (a : Act) (next k : List Act) (ys : List (List Act))
    → weight w (xs ++ (next ++ k) ∷ ys) + w a ≡ weight w (xs ++ (a ∷ k) ∷ ys) + weigh w next
weight-run w xs a next k ys = omega (
  arith,
  sum-split (weigh w) xs (next ++ k) ys,
  sum-split (weigh w) xs (a ∷ k) ys,
  weigh-append w next k,
)

pub weight-run_of :
    (w : Act → ℕ) {threads : List (List Act)} (xs : List (List Act)) (a : Act) (next k : List Act)
    (ys : List (List Act))
    → threads ≡ xs ++ (a ∷ k) ∷ ys
    → weight w (xs ++ (next ++ k) ∷ ys) + w a ≡ weight w threads + weigh w next
weight-run_of w xs a next k ys e = omega (arith, weight-run w xs a next k ys, ap (weight w) e)

-- A call in front of what a thread has still to run.
pub weight-call :
    (w : Act → ℕ) {threads : List (List Act)} (xs : List (List Act)) (c a : Act) (k : List Act)
    (ys : List (List Act))
    → threads ≡ xs ++ (a ∷ k) ∷ ys
    → weight w (xs ++ (c ∷ a ∷ k) ∷ ys) ≡ w c + weight w threads
weight-call w xs c a k ys e = omega (
  arith,
  sum-split (weigh w) xs (c ∷ a ∷ k) ys,
  sum-split (weigh w) xs (a ∷ k) ys,
  ap (weight w) e,
)

-- An I/O that the system completes is no longer pending.
pub sum_complete :
    (w : Io → ℕ) {pending : List Io} (xs : List Io) (io : Io) (ys : List Io)
    → pending ≡ xs ++ io ∷ ys
    → w io + sum w (xs ++ ys) ≡ sum w pending
sum_complete w xs io ys e = omega (arith, sum-split w xs io ys, sum-append w xs ys, ap (sum w) e)

pub length_complete :
    {pending : List Io} (xs : List Io) (io : Io) (ys : List Io)
    → pending ≡ xs ++ io ∷ ys
    → 1 + length (xs ++ ys) ≡ length pending
length_complete xs io ys e =
    omega (arith, length-append xs (io ∷ ys), length-append xs ys, ap length e)

pub weight-has :
    (w : Act → ℕ) {threads : List (List Act)} (xs : List (List Act)) (a : Act) (k : List Act)
    (ys : List (List Act))
    → threads ≡ xs ++ (a ∷ k) ∷ ys
    → w a + weigh w k ≤ weight w threads
weight-has w xs a k ys e = omega (arith, sum-split (weigh w) xs (a ∷ k) ys, ap (weight w) e)

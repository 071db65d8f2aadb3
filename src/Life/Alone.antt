-- ===== src/Life/Alone.antt =====
-- Threads with a single part to run, and those whose last part has a reference.
use network.Prelude.{
  ℕ, ◌≡◌, ◌≤◌, ◌<◌, ◌+◌, refl, ap, ◌⊎◌, inl, inr, Bool, true, false, List, [], ◌∷◌, ◌++◌, ◌==◌,
  arith, ne→==,
}
use native.Mathlib.Decide.{ℕ_discrete}
use network.Life.{Act, Io, accept_io, recv_io, send_io, completion, holds, weigh}
use network.Life.Weight.{weight, sum, sum-split}
use network.Life.Effects.{bit, lone, unclosed, unclosed_behind}

-- Behind the part that a thread runs next, its last part has a reference.
pub closed-holds : (a : Act) (k : List Act) → unclosed (a ∷ k) ≡ 0 → 0 < weigh holds (a ∷ k)
closed-holds a [] e = omega (arith, e)
closed-holds a (b ∷ k) e = omega (arith, closed-holds b k e)

unclosed-append : (j k : List Act) → unclosed j ≡ 0 → unclosed k ≡ 0 → unclosed (j ++ k) ≡ 0
unclosed-append [] k e f = f
unclosed-append (a ∷ []) [] e f = e
unclosed-append (a ∷ []) (b ∷ k) e f = f
unclosed-append (a ∷ b ∷ j) k e f = unclosed-append (b ∷ j) k e f

pub unclosed_behind-append :
    (j k : List Act) → unclosed_behind j ≡ 0 → unclosed k ≡ 0 → unclosed_behind (j ++ k) ≡ 0
unclosed_behind-append [] [] e f = refl
unclosed_behind-append [] (a ∷ []) e f = refl
unclosed_behind-append [] (a ∷ b ∷ k) e f = f
unclosed_behind-append (a ∷ j) k e f = unclosed-append j k e f

-- In front of closed parts, nothing is alone.
pub lone-append :
    (j : List Act) (a : Act) (k : List Act) → unclosed (a ∷ k) ≡ 0 → lone (j ++ a ∷ k) ≡ 0
lone-append [] a [] e = e
lone-append [] a (b ∷ k) e = refl
lone-append (x ∷ []) a k e = refl
lone-append (x ∷ y ∷ j) a k e = refl

pub lone-holds : (k : List Act) → (lone k ≡ 0) ⊎ ((lone k ≡ 1) × (weigh holds k ≡ 0))
lone-holds [] = inl refl
lone-holds (a ∷ []) = elim (ℕ_discrete (holds a) 0) [
  | yes z ↦ inr (omega (arith, z), omega (arith, z))
  | no z ↦ inl (omega (arith, z))
]
lone-holds (a ∷ b ∷ k) = inl refl

pub bit-zero : (n : ℕ) → (n ≡ 0) ⊎ (bit (n == 0) ≡ 0)
bit-zero n = elim (ℕ_discrete n 0) [ yes z ↦ inl z | no z ↦ inr (ap bit (ne→== n 0 z)) ]

pub lone-completion : (io : Io) → (lone (completion io) ≡ 0) × (unclosed_behind (completion io) ≡ 0)
lone-completion accept_io = (refl, refl)
lone-completion recv_io = (refl, refl)
lone-completion send_io = (refl, refl)

pub split_of :
    (w : List Act → ℕ) {threads : List (List Act)} (xs : List (List Act)) (k : List Act)
    (ys : List (List Act))
    → threads ≡ xs ++ k ∷ ys
    → sum w threads ≡ w k + (sum w xs + sum w ys)
split_of w xs k ys e = omega (arith, sum-split w xs k ys, ap (sum w) e)

abbrev pub one : Act → ℕ
one a = 1

-- Without references, a thread with something to do is alone.
one-lone : (k : List Act) → unclosed_behind k ≡ 0 → weigh holds k ≡ 0 → weigh one k ≡ lone k
one-lone [] e h = refl
one-lone (a ∷ []) e h = omega (arith, h)
one-lone (a ∷ b ∷ k) e h = absurd (omega (arith, h, closed-holds b k e))

pub one-lone_all :
    (threads : List (List Act))
    → sum unclosed_behind threads ≡ 0
    → weight holds threads ≡ 0
    → weight one threads ≡ sum lone threads
one-lone_all [] e h = refl
one-lone_all (k ∷ ks) e h = omega (
  arith,
  one-lone k (omega (arith, e)) (omega (arith, h)),
  one-lone_all ks (omega (arith, e)) (omega (arith, h)),
)

pub bit-le : (b : Bool) → bit b ≤ 1
bit-le true = omega arith
bit-le false = omega arith

-- Parts of one kind are no more than all parts.
pub weigh-kind : (kind : Act → Bool) (k : List Act) → weigh (λ a. bit (kind a)) k ≤ weigh one k
weigh-kind kind [] = omega arith
weigh-kind kind (a ∷ k) = omega (arith, bit-le (kind a), weigh-kind kind k)

pub weight-kind :
    (kind : Act → Bool) (threads : List (List Act))
    → weight (λ a. bit (kind a)) threads ≤ weight one threads
weight-kind kind [] = omega arith
weight-kind kind (k ∷ ks) = omega (arith, weigh-kind kind k, weight-kind kind ks)

-- The only part that there is to run weighs what all weigh.
pub only_part :
    (kind : Act → Bool) {threads : List (List Act)} (xs : List (List Act)) (a : Act) (k : List Act)
    (ys : List (List Act))
    → threads ≡ xs ++ (a ∷ k) ∷ ys
    → weight one threads ≡ 1
    → weight (λ b. bit (kind b)) threads ≡ bit (kind a)
only_part kind xs a k ys e h = omega (
  arith,
  h,
  split_of (weigh one) xs (a ∷ k) ys e,
  split_of (weigh (λ b. bit (kind b))) xs (a ∷ k) ys e,
  weigh-kind kind k,
  weight-kind kind xs,
  weight-kind kind ys,
)

-- ===== src/Jobs/Timers.antt =====
-- The jobs with a time: the priority queue, and the second loop of Execute.
use network.Prelude.{
  ℕ, zero, suc, ◌≡◌, ◌≤◌, ◌+◌, refl, ap, subst, List, [], ◌∷◌, ◌++◌, length, arith, ltb, ltb→lt,
  ltb→le, Bool-cases, inl, inr,
}
use mathlib.Core.List.{Perm}
use mathlib.Core.List.Perm
use network.Jobs.{JobPriority, emplace, execute_timers}

abbrev pub NotBefore : ℕ → List JobPriority → Type 0
NotBefore t [] = Unit {0}
NotBefore t (job ∷ jobs) = (t ≤ job.execute_time) × NotBefore t jobs

abbrev pub IsSorted : List JobPriority → Type 0
IsSorted [] = Unit {0}
IsSorted (job ∷ jobs) = NotBefore job.execute_time jobs × IsSorted jobs

abbrev pub AllDue : ℕ → List JobPriority → Type 0
AllDue t [] = Unit {0}
AllDue t (job ∷ jobs) = (job.execute_time ≤ t) × AllDue t jobs

NotBefore-le : (t u : ℕ) (jobs : List JobPriority) → t ≤ u → NotBefore u jobs → NotBefore t jobs
NotBefore-le t u [] h n = tt
NotBefore-le t u (job ∷ jobs) h (a, n) = (omega (arith, h, a), NotBefore-le t u jobs h n)

emplace-NotBefore :
    (t : ℕ) (job : JobPriority) (jobs : List JobPriority)
    → t ≤ job.execute_time
    → NotBefore t jobs
    → NotBefore t (emplace job jobs)
unfolding emplace
emplace-NotBefore t job [] h n = (h, tt)
emplace-NotBefore t job (top ∷ rest) h (a, n) =
    elim (Bool-cases (ltb job.execute_time top.execute_time)) [
      | inl y ↦ rw y (h, (a, n))
      | inr z ↦ rw z (a, emplace-NotBefore t job rest h n)
    ]

pub emplace-IsSorted :
    (job : JobPriority) (jobs : List JobPriority) → IsSorted jobs → IsSorted (emplace job jobs)
unfolding emplace
emplace-IsSorted job [] s = (tt, tt)
emplace-IsSorted job (top ∷ rest) (n, s) =
    elim (Bool-cases (ltb job.execute_time top.execute_time)) [
      | inl y ↦
          let h = ltb→lt job.execute_time top.execute_time y in
          rw y (
            (
              omega (arith, h),
              NotBefore-le job.execute_time top.execute_time rest (omega (arith, h)) n,
            ),
            (n, s),
          )
      | inr z ↦ rw z (
        emplace-NotBefore top.execute_time job rest (ltb→le job.execute_time top.execute_time z) n,
        emplace-IsSorted job rest s,
      )
    ]

pub emplace-Perm :
    (job : JobPriority) (jobs : List JobPriority) → Perm (emplace job jobs) (job ∷ jobs)
unfolding emplace
emplace-Perm job [] = Perm.refl (job ∷ [])
emplace-Perm job (top ∷ rest) = elim (Bool-cases (ltb job.execute_time top.execute_time)) [
  | inl y ↦ rw y (Perm.refl (job ∷ top ∷ rest))
  | inr z ↦ rw z (Perm.trans (Perm.cons top (emplace-Perm job rest)) (Perm.swap job top rest))
]

-- A job in front of others may as well stand behind some.
pub middle-Perm :
    (job : JobPriority) (xs ys : List JobPriority) → Perm ((job ∷ xs) ++ ys) (xs ++ job ∷ ys)
middle-Perm job [] ys = Perm.refl (job ∷ ys)
middle-Perm job (x ∷ xs) ys =
    Perm.trans (Perm.swap x job (xs ++ ys)) (Perm.cons x (middle-Perm job xs ys))

-- What the second loop of Execute runs and leaves, with the clock's last reading at hand.
pub record Ran (clock : ℕ → ℕ) (i : ℕ) (jobs : List JobPriority)
    (r : List JobPriority × List JobPriority) : Type 0 where
  pub all : r.0 ++ r.1 ≡ jobs
  pub due : AllDue (clock (i + length r.0)) r.0
  pub later : NotBefore (suc (clock (i + length r.0))) r.1

clock-le :
    (clock : ℕ → ℕ) → ((i : ℕ) → clock i ≤ clock (suc i)) → (i n : ℕ) → clock i ≤ clock (i + n)
clock-le clock m i zero = omega (arith, ap clock {x = i + 0} {y = i} (omega arith))
clock-le clock m i (suc n) = omega (
  arith,
  clock-le clock m i n,
  m (i + n),
  ap clock {x = i + suc n} {y = suc (i + n)} (omega arith),
)

pub execute_timers-Ran :
    (clock : ℕ → ℕ)
    → ((i : ℕ) → clock i ≤ clock (suc i))
    → (i : ℕ) (jobs : List JobPriority) → IsSorted jobs
    → Ran clock i jobs (execute_timers clock i jobs)
unfolding execute_timers
execute_timers-Ran clock m i [] s = record { all = refl; due = tt; later = tt }
execute_timers-Ran clock m i (top ∷ rest) (n, s) =
    elim (Bool-cases (ltb (clock i) top.execute_time)) [
      | inl y ↦
          let h = ltb→lt (clock i) top.execute_time y in
          let same = ap clock {x = i + 0} {y = i} (omega arith) in
          rw y (record {
            all = refl;
            due = tt;
            later = (
              omega (arith, h, same),
              NotBefore-le (suc (clock (i + 0))) top.execute_time rest (omega (arith, h, same)) n,
            );
          })
      | inr z ↦
          let r = execute_timers-Ran clock m (i + 1) rest s in
          let ran = (execute_timers clock (i + 1) rest).0 in
          let left = (execute_timers clock (i + 1) rest).1 in
          let same : clock (i + 1 + length ran) ≡ clock (i + suc (length ran)) =
            ap clock (omega arith) in
          rw z (record {
            all = ap (◌∷◌ top) r.all;
            due = (
              omega (
                arith,
                ltb→le (clock i) top.execute_time z,
                clock-le clock m i (suc (length ran)),
              ),
              subst (λ t. AllDue t ran) same r.due,
            );
            later = subst (λ t. NotBefore (suc t) left) same r.later;
          })
    ]

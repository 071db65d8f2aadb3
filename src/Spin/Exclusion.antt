-- ===== src/Spin/Exclusion.antt =====
-- Mutual exclusion, and how often the lock is held.
use network.Prelude.{ℕ, suc, ◌≡◌, ◌≢◌, ◌+◌, ◌∙◌, refl, sym, subst, ◌⊎◌, inl, inr, arith}
use native.Mathlib.Decide.{ℕ_discrete}
use network.Spin.{
  SpinLock, Place, inside, trying, reading, move, Threads, update, calls_lock, calls_unlock, moves,
  Reach, start, later,
}
use network.Spin.Holder.{
  Owns, Holds, Away, IsFree, held-taken, move-Holds, move-taken, move_untaken,
}

update-at : (f : ℕ → Place) (i : ℕ) (p : Place) → update f i p i ≡ p
update-at f i p = ground arith

update-other : (f : ℕ → Place) (i : ℕ) (p : Place) (j : ℕ) → j ≢ i → update f i p j ≡ f j
update-other f i p j d = ground arith

-- Nobody has the lock, or one thread, and nobody else.
abbrev AllAway : (ℕ → Place) → Type 0
AllAway f = (j : ℕ) → Away (f j)

abbrev OthersAway : (ℕ → Place) → ℕ → Type 0
OthersAway f i = (j : ℕ) → j ≢ i → Away (f j)

abbrev pub Taken : SpinLock → (ℕ → Place) → ℕ → Type 0
Taken l f i = Holds l (i + 1) (f i) × OthersAway f i

abbrev pub IsExclusive : Threads → Type 0
IsExclusive s = (IsFree s.lock × AllAway s.place) ⊎ ((i : ℕ) × Taken s.lock s.place i)

update-Away : (f : ℕ → Place) (i : ℕ) (p : Place) → Away p → OthersAway f i → AllAway (update f i p)
update-Away f i p a o j = elim (ℕ_discrete j i) [
  | yes e ↦ subst (λ k. Away (update f i p k)) (sym e) (subst Away (sym (update-at f i p)) a)
  | no d ↦ subst Away (sym (update-other f i p j d)) (o j d)
]

update-OthersAway :
    (f : ℕ → Place) (i : ℕ) (p : Place) → OthersAway f i → OthersAway (update f i p) i
update-OthersAway f i p o j d = subst Away (sym (update-other f i p j d)) (o j d)

-- What thread `i` does leaves the lock with it, or free.
settle :
    (m : SpinLock) (f : ℕ → Place) (i : ℕ) (p : Place)
    → OthersAway f i
    → Holds m (i + 1) p ⊎ (Away p × IsFree m)
    → IsExclusive (record { lock = m; place = update f i p })
settle m f i p o (inl h) =
    inr (i, (subst (Holds m (i + 1)) (sym (update-at f i p)) h, update-OthersAway f i p o))
settle m f i p o (inr (a, free)) = inl (free, update-Away f i p a o)

-- What another thread does than `i`, which has the lock, changes nothing of it.
keep :
    (m : SpinLock) (f : ℕ → Place) (i j : ℕ) (p : Place)
    → Taken m f i
    → j ≢ i
    → Away p
    → IsExclusive (record { lock = m; place = update f j p })
keep m f i j p (h, o) d a = inr (
  i,
  (
    subst (Holds m (i + 1)) (sym (update-other f j p i (λ e. d (sym e)))) h,
    λ k n. elim (ℕ_discrete k j) [
      | yes e ↦ subst (λ x. Away (update f j p x)) (sym e) (subst Away (sym (update-at f j p)) a)
      | no u ↦ subst Away (sym (update-other f j p k u)) (o k n)
    ],
  ),
)

depth-Away : (d : ℕ) (p : Place) → p ≡ inside d → Away p → d ≡ 0
depth-Away d p e a = subst Away e a

moves-IsExclusive :
    (s : Threads) (j : ℕ)
    → IsExclusive s
    → IsExclusive (record {
      lock = (move (j + 1) (s.place j) s.lock).1;
      place = update s.place j (move (j + 1) (s.place j) s.lock).0;
    })
moves-IsExclusive s j (inl (free, away)) =
    settle _ s.place j _ (λ k d. away k)
      (move_untaken s.lock (j + 1) (s.place j) (away j) free (omega arith))
moves-IsExclusive s j (inr (i, (h, o))) = elim (ℕ_discrete j i) [
  | yes e ↦
      settle _ s.place j _ (λ k d. o k (λ g. d (g ∙ sym e)))
        (move-Holds s.lock (j + 1) (s.place j)
          (subst (λ k. Holds s.lock (k + 1) (s.place k)) (sym e) h))
  | no d ↦
      let (c, n) =
        held-taken s.lock (i + 1) (j + 1) (s.place i) h (λ e. d (omega (arith, e))) (omega arith) in
      let (a, same) = move-taken s.lock (j + 1) (s.place j) (o j d) c n in
      keep _ s.place i j _ (subst (λ m. Taken m s.place i) (sym same) (h, o)) d a
]

pub Reach-IsExclusive : {s : Threads} → Reach s → IsExclusive s
Reach-IsExclusive start = inl ((refl, refl), λ j. refl)
Reach-IsExclusive (later {s = s} r (calls_lock i d e f)) = elim (Reach-IsExclusive r) [
  | inl (free, away) ↦
      settle s.lock s.place i (trying d) (λ k n. away k)
        (inr (depth-Away d (s.place i) e (away i), free))
  | inr (k, (h, o)) ↦ elim (ℕ_discrete i k) [
    | yes same ↦
        settle s.lock s.place i (trying d) (λ j n. o j (λ g. n (g ∙ sym same)))
          (inl (
            subst (Holds s.lock (i + 1)) e
                (subst (λ j. Holds s.lock (j + 1) (s.place j)) (sym same) h),
            f,
          ))
    | no n ↦ keep s.lock s.place k i (trying d) (h, o) n (depth-Away d (s.place i) e (o i n))
  ]
]
Reach-IsExclusive (later {s = s} r (calls_unlock i d e)) = elim (Reach-IsExclusive r) [
  | inl (free, away) ↦ absurd (omega (arith, depth-Away (suc d) (s.place i) e (away i)))
  | inr (k, (h, o)) ↦ elim (ℕ_discrete i k) [
    | yes same ↦
        settle s.lock s.place i (reading (suc d)) (λ j n. o j (λ g. n (g ∙ sym same)))
          (inl (
            subst (Holds s.lock (i + 1)) e
              (subst (λ j. Holds s.lock (j + 1) (s.place j)) (sym same) h)))
    | no n ↦ absurd (omega (arith, depth-Away (suc d) (s.place i) e (o i n)))
  ]
]
Reach-IsExclusive (later {s = s} r (moves i)) = moves-IsExclusive s i (Reach-IsExclusive r)

-- What the thread knows that has the lock.
owner-Owns :
    (s : Threads) (i d : ℕ)
    → Reach s
    → s.place i ≡ inside (suc d)
    → Owns s.lock (i + 1) (suc d) × OthersAway s.place i
owner-Owns s i d r e = elim (Reach-IsExclusive r) [
  | inl (free, away) ↦ absurd (omega (arith, depth-Away (suc d) (s.place i) e (away i)))
  | inr (k, (h, o)) ↦ elim (ℕ_discrete i k) [
    | yes same ↦ (
      subst (Holds s.lock (i + 1)) e (subst (λ j. Holds s.lock (j + 1) (s.place j)) (sym same) h),
      λ j n. o j (λ g. n (g ∙ sym same)),
    )
    | no n ↦ absurd (omega (arith, depth-Away (suc d) (s.place i) e (o i n)))
  ]
]

-- Whatever calls of Lock (fewer than 2 ^ 32 at a time) and, for its own, of Unlock any number of
-- threads have made, with the accesses to `_count` and `_threadId` interleaved in any way: when a
-- thread between calls has locked more often than unlocked, another thread between calls has not,
-- `_count` is the number of times that the first one still has to unlock, and `_threadId` is its
-- id.
pub Reach-excludes :
    {s : Threads} (i d j c : ℕ)
    → Reach s
    → s.place i ≡ inside (suc d)
    → s.place j ≡ inside c
    → j ≢ i
    → (c ≡ 0) × (s.lock.count ≡ suc d) × (s.lock.owner ≡ i + 1)
Reach-excludes {s} i d j c r e f n =
    let (owns, o) = owner-Owns s i d r e in (depth-Away c (s.place j) f (o j n), owns.2, owns.3)

-- When every thread has unlocked as often as it has locked, the lock is free.
pub Reach-released : {s : Threads} → Reach s → ((j : ℕ) → s.place j ≡ inside 0) → IsFree s.lock
Reach-released {s} r e = elim (Reach-IsExclusive r) [
  | inl (free, away) ↦ free
  | inr (k, (h, o)) ↦ absurd (omega (arith, (subst (Holds s.lock (k + 1)) (e k) h).0))
]

-- ===== src/Spin/Holder.antt =====
-- What a thread that has the lock knows of it, and what the steps of this and of other threads do.
use network.Prelude.{ℕ, ◌≡◌, ◌≢◌, ◌<◌, ◌+◌, refl, ◌⊎◌, inl, inr, arith, eq→==, ne→==, sub32}
use native.Mathlib.Decide.{ℕ_discrete}
use network.Spin.{
  SpinLock, Place, inside, trying, testing, again, entering, reading, storing, clearing_owner,
  clearing_count, move,
}

-- A thread with the lock: `_count` is the number of times, and `_threadId` its id, but at both ends.
abbrev pub Owns : SpinLock → ℕ → ℕ → Type 0
Owns l id d = (0 < d) × (d < 4294967296) × (l.count ≡ d) × (l.owner ≡ id)

abbrev pub Holds : SpinLock → ℕ → Place → Type 0
Holds l id (inside d) = Owns l id d
Holds l id (trying d) = Owns l id d × (d + 1 < 4294967296)
Holds l id (testing d) = Owns l id d × (d + 1 < 4294967296)
Holds l id (again d) = Owns l id d × (d + 1 < 4294967296)
Holds l id (entering d) = (d ≡ 0) × (l.count ≡ 1) × (l.owner ≡ 0)
Holds l id (reading d) = Owns l id d
Holds l id (storing d n) = Owns l id d × (d ≡ n + 1) × (0 < n)
Holds l id (clearing_owner d) = (d ≡ 1) × (l.count ≡ 1) × (l.owner ≡ id)
Holds l id (clearing_count d) = (d ≡ 1) × (l.count ≡ 1) × (l.owner ≡ 0)

-- A thread without the lock.
abbrev pub Away : Place → Type 0
Away (inside d) = d ≡ 0
Away (trying d) = d ≡ 0
Away (testing d) = d ≡ 0
Away _ = ⊥

abbrev pub IsFree : SpinLock → Type 0
IsFree l = (l.count ≡ 0) × (l.owner ≡ 0)

-- The lock is taken, and other threads do not find their id in it.
pub held-taken :
    (l : SpinLock) (id other : ℕ) (p : Place)
    → Holds l id p
    → id ≢ other
    → 0 < other
    → (0 < l.count) × (l.owner ≢ other)
held-taken l id other (inside d) h n z = (omega (arith, h), λ e. n (omega (arith, h, e)))
held-taken l id other (trying d) h n z = (omega (arith, h), λ e. n (omega (arith, h, e)))
held-taken l id other (testing d) h n z = (omega (arith, h), λ e. n (omega (arith, h, e)))
held-taken l id other (again d) h n z = (omega (arith, h), λ e. n (omega (arith, h, e)))
held-taken l id other (entering d) h n z = (omega (arith, h), λ e. omega (arith, h, e, z))
held-taken l id other (reading d) h n z = (omega (arith, h), λ e. n (omega (arith, h, e)))
held-taken l id other (storing d m) h n z = (omega (arith, h), λ e. n (omega (arith, h, e)))
held-taken l id other (clearing_owner d) h n z = (omega (arith, h), λ e. n (omega (arith, h, e)))
held-taken l id other (clearing_count d) h n z = (omega (arith, h), λ e. omega (arith, h, e, z))

-- The thread that has the lock keeps it, or gives it back.
pub move-Holds :
    (l : SpinLock) (id : ℕ) (p : Place)
    → Holds l id p
    → let (q, m) = move id p l in Holds m id q ⊎ (Away q × IsFree m)
unfolding move
move-Holds l id (inside d) h = inl h
move-Holds l id (trying d) h = rw (ne→== l.count 0 (omega (arith, h))) (inl h)
move-Holds l id (testing d) h = rw (eq→== id l.owner (omega (arith, h))) (inl h)
move-Holds l id (again d) h = inl (omega (arith, h))
move-Holds l id (entering d) h = inl (omega (arith, h))
move-Holds l id (reading d) h = elim (ℕ_discrete l.count 1) [
  | yes last ↦ rw (eq→== (sub32 l.count 1) 0 (omega (arith, last))) (inl (omega (arith, h, last)))
  | no more ↦ rw (ne→== (sub32 l.count 1) 0 (omega (arith, h, more))) (inl (omega (arith, h, more)))
]
move-Holds l id (storing d n) h = inl (omega (arith, h))
move-Holds l id (clearing_owner d) h = inl (omega (arith, h))
move-Holds l id (clearing_count d) h = inr (omega (arith, h))

-- Other threads change nothing.
pub move-taken :
    (l : SpinLock) (id : ℕ) (p : Place)
    → Away p
    → 0 < l.count
    → l.owner ≢ id
    → let (q, m) = move id p l in Away q × (m ≡ l)
unfolding move
move-taken l id (inside d) a c o = (a, refl)
move-taken l id (trying d) a c o = rw (ne→== l.count 0 (omega (arith, c))) (a, refl)
move-taken l id (testing d) a c o = rw (ne→== id l.owner (λ e. o (omega (arith, e)))) (a, refl)
move-taken l id (again d) a c o = absurd a
move-taken l id (entering d) a c o = absurd a
move-taken l id (reading d) a c o = absurd a
move-taken l id (storing d n) a c o = absurd a
move-taken l id (clearing_owner d) a c o = absurd a
move-taken l id (clearing_count d) a c o = absurd a

-- A free lock is taken by one access, or left as it is.
pub move_untaken :
    (l : SpinLock) (id : ℕ) (p : Place)
    → Away p
    → IsFree l
    → 0 < id
    → let (q, m) = move id p l in Holds m id q ⊎ (Away q × IsFree m)
unfolding move
move_untaken l id (inside d) a f z = inr (a, f)
move_untaken l id (trying d) a f z = rw (eq→== l.count 0 f.0) (inl (omega (arith, a, f)))
move_untaken l id (testing d) a f z = rw (ne→== id l.owner (omega (arith, f, z))) (inr (a, f))
move_untaken l id (again d) a f z = absurd a
move_untaken l id (entering d) a f z = absurd a
move_untaken l id (reading d) a f z = absurd a
move_untaken l id (storing d n) a f z = absurd a
move_untaken l id (clearing_owner d) a f z = absurd a
move_untaken l id (clearing_count d) a f z = absurd a

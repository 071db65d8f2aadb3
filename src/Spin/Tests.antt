-- ===== src/Spin/Tests.antt =====
-- The spin lock with two threads.
use network.Prelude.{ℕ, ◌≡◌, refl, arith}
use network.Spin.{
  inside, trying, entering, move, Threads, calls_lock, moves, Reach, start, later, update,
}
use network.Spin.Exclusion.{Reach-excludes}

-- Thread 0 has the lock.
abbrev locked : Threads
locked = record {
  lock = record { count = 1; owner = 1 };
  place = update (update (update (λ _. inside 0) 0 (trying 0)) 0 (entering 0)) 0 (inside 1);
}

locked-Reach : Reach locked
unfolding move
locked-Reach = later (later (later start (calls_lock 0 0 refl (omega arith))) (moves 0)) (moves 0)

Reach-excludes_example :
    let c : ℕ = 0 in (c ≡ 0) × (locked.lock.count ≡ 1) × (locked.lock.owner ≡ 1)
Reach-excludes_example = Reach-excludes 0 0 1 0 locked-Reach refl refl (omega arith)

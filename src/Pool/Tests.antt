-- ===== src/Pool/Tests.antt =====
-- A pool with blocks that are far from one another: a node is handed out, given back to another thread, and the next is asked for.
use network.Prelude.{ℕ, ◌*◌, inl, inr, some, arith, ltb, ltb→lt, ltb→le, Bool-cases}
use network.Pool.{new_memory_pool, allocate, deallocate, update}
use network.Pool.Regions.{Separate}
use network.Pool.Places.{never, using, returned, update_self}
use network.Pool.Handing.{Handed}
use network.Pool.Safety.{Reach, start, allocated, given_back, Reach-allocate}

abbrev base : ℕ → ℕ
base i = i * 2000000

base-Separate : Separate base
base-Separate i j ne = elim (Bool-cases (ltb i j)) [
  | inl y ↦ inl (omega (arith, ltb→lt i j y))
  | inr z ↦ inr (omega (arith, ltb→le i j z, ne))
]

first : Handed base (λ n. never) 10 (allocate (λ i. some (base i)) 1 10 new_memory_pool)
first = Reach-allocate base-Separate 1 10 start (omega arith)

one_out : Reach base (update (λ n. never) first.node (using 10)) first.after
one_out = allocated 1 10 first.node start (omega arith) first.result

one_back :
    Reach base
      (update (update (λ n. never) first.node (using 10)) first.node returned)
      (deallocate 2 first.node first.after)
one_back =
    given_back 2 first.node 10 one_out (omega arith)
      (update_self (λ n. never) first.node (using 10))

Reach-allocate_example :
    Handed base
      (update (update (λ n. never) first.node (using 10)) first.node returned)
      100
      (allocate (λ i. some (base i)) 1 100 (deallocate 2 first.node first.after))
Reach-allocate_example = Reach-allocate base-Separate 1 100 one_back (omega arith)

-- ===== src/Jobs/Tests.antt =====
-- Jobs on a new queue, run with a clock at hand.
use network.Prelude.{ℕ, suc, ◌≤◌, ◌+◌, List, [], ◌∷◌, arith}
use network.Jobs.{execute_queue, new_job}
use network.Jobs.Order.{Executed}
use network.Jobs.Choice.{
  JobCall, for_id, on_thread, post_calls, calls_for, AllWithin, execute_queue-post_calls,
}

abbrev calls : List JobCall
calls =
    for_id 3 (record { now = 5; func = 1; delay = 30 })
    ∷ on_thread 1 (record { now = 6; func = 2; delay = 0 })
    ∷ on_thread 4294967295 (record { now = 7; func = 3; delay = 10 })
    ∷ for_id 2 (record { now = 7; func = 5; delay = 0 })
    ∷ for_id 1 (record { now = 8; func = 4; delay = 0 })
    ∷ []

abbrev clock : ℕ → ℕ
clock i = i + 20

clock-le_suc : (i : ℕ) → clock i ≤ clock (suc i)
clock-le_suc i = omega arith

execute_queue-post_calls_example :
    AllWithin 2 0 calls
    × Executed clock
        (calls_for 2 1 0 calls)
        (execute_queue clock ((post_calls calls (new_job 2)).queues 1))
execute_queue-post_calls_example =
    execute_queue-post_calls 2 1 calls clock (omega arith) clock-le_suc

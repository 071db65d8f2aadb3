-- ===== src/Jobs.antt =====
-- Network/Common/Job.cpp: the queues of jobs, at once and by time. A function is a number, `none` is NULL; what a
-- job itself posts is not in it. Times are DWORDs, as timeGetTime gives them.
use network.Prelude.{
  ℕ, zero, suc, ◌≡◌, ◌+◌, ◌%◌, Bool, true, false, Option, none, some, List, [], ◌∷◌, ◌++◌, ltb,
  ◌==◌, if◌then◌else◌, add32,
}
pub mod Timers
pub mod Order
pub mod Choice
mod Tests

-- JobPriority: `_executeTime` and `_func`.
pub record JobPriority : Type 0 where
  pub execute_time : ℕ
  pub func : ℕ

pub record JobQueue : Type 0 where
  pub active : Bool
  pub queue : List ℕ
  -- The one that is on top first.
  pub queue_timer : List JobPriority

-- JobQueue(), where the thread starts.
abbrev pub new_job_queue : JobQueue
new_job_queue = record { active = true; queue = []; queue_timer = [] }

-- JobPriority(), and the order of the priority queue: the earliest time on top. Where times are the
-- same, std::priority_queue leaves the order open; here the one that was posted first is on top.
abbrev pub new_job_priority : ℕ → ℕ → ℕ → JobPriority
new_job_priority now millisecond func = record { execute_time = add32 now millisecond; func = func }

unfoldable pub emplace : JobPriority → List JobPriority → List JobPriority
emplace job [] = job ∷ []
emplace job (top ∷ rest) =
    let more = emplace job rest in
    if ltb job.execute_time top.execute_time then job ∷ top ∷ rest else top ∷ more

-- JobQueue::Post, at the time `now`.
unfoldable pub post_job : ℕ → Option ℕ → ℕ → JobQueue → Bool × JobQueue
post_job now none delay q = (false, q)
post_job now (some f) delay q =
    if q.active
    then (if delay == 0 then (true, record q { queue = q.queue ++ f ∷ [] }) else (
      true,
      record q { queue_timer = emplace (new_job_priority now delay f) q.queue_timer },
    ))
    else (false, q)

-- The second loop of Execute, where timeGetTime answers `clock i`, `clock (i + 1)` and so on: what has
-- been run, and what is left.
unfoldable pub execute_timers : (ℕ → ℕ) → ℕ → List JobPriority → List JobPriority × List JobPriority
execute_timers clock i [] = ([], [])
execute_timers clock i (top ∷ rest) =
    let (ran, left) = execute_timers clock (i + 1) rest in
    if ltb (clock i) top.execute_time then ([], top ∷ rest) else (top ∷ ran, left)

abbrev pub funcs : List JobPriority → List ℕ
funcs [] = []
funcs (job ∷ jobs) = job.func ∷ funcs jobs

-- JobQueue::Execute: the functions that it runs, in order, and the queue that it leaves.
unfoldable pub execute_queue : (ℕ → ℕ) → JobQueue → List ℕ × JobQueue
execute_queue clock q =
    let (ran, left) = execute_timers clock 0 q.queue_timer in
    if q.active
    then (q.queue ++ funcs ran, record q { queue = []; queue_timer = left })
    else ([], q)

-- Job::_SafeId
unfoldable pub safe_id : ℕ → ℕ → ℕ
safe_id count id = if ltb id count then id else id % count

-- class Job: as many queues as processors, `queues i` for `_queues[i]`.
pub record Job : Type 0 where
  pub count : ℕ
  pub queues : ℕ → JobQueue
  pub seq_id : ℕ

-- Job(), where the system has `count` processors.
abbrev pub new_job : ℕ → Job
new_job count = record { count = count; queues = λ i. new_job_queue; seq_id = 0 }

abbrev pub update_queue : ℕ → JobQueue → (ℕ → JobQueue) → ℕ → JobQueue
update_queue i q queues j = if j == i then q else queues j

-- Job::Post of a function with an id, at the time `now`.
unfoldable pub post_for : ℕ → ℕ → Option ℕ → ℕ → Job → Job
post_for now id f delay jobs =
    let i = safe_id jobs.count id in
    record jobs { queues = update_queue i (post_job now f delay (jobs.queues i)).1 jobs.queues }

-- `tls_jobId` of a thread that no queue has started.
abbrev pub no_job_id : ℕ
no_job_id = 4294967295

-- Job::Post of a function without an id, on a thread whose `tls_jobId` is `tls`.
unfoldable pub post_here : ℕ → ℕ → Option ℕ → ℕ → Job → Job
post_here now tls f delay jobs =
    let seq = add32 jobs.seq_id 1 in
    if tls == no_job_id
    then post_for now seq f delay (record jobs { seq_id = seq })
    else post_for now tls f delay jobs

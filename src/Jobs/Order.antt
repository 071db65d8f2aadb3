-- ===== src/Jobs/Order.antt =====
-- What Execute runs, in which order, and what it leaves.
use network.Prelude.{
  ℕ, suc, ◌≡◌, ◌≤◌, ◌+◌, ◌∙◌, refl, ap, sym, subst, true, false, some, List, [], ◌∷◌, ◌++◌, length,
  arith, append_assoc, append-nil, Bool-cases, inl, inr, if◌then◌else◌, ◌==◌,
}
use mathlib.Core.List.{Perm}
use mathlib.Core.List.Perm
use network.Jobs.{
  JobPriority, JobQueue, new_job_queue, new_job_priority, emplace, post_job, execute_timers, funcs,
  execute_queue,
}
use network.Jobs.Timers.{
  NotBefore, IsSorted, AllDue, emplace-IsSorted, emplace-Perm, middle-Perm, execute_timers-Ran,
}

-- A call of Post: the time, the function and the delay.
pub record Call : Type 0 where
  pub now : ℕ
  pub func : ℕ
  pub delay : ℕ

unfoldable pub posts : List Call → JobQueue → JobQueue
posts [] q = q
posts (c ∷ cs) q = posts cs (post_job c.now (some c.func) c.delay q).1

-- The functions to run at once, and the jobs with a time, in the order of posting.
abbrev pub at_once : List Call → List ℕ
at_once [] = []
at_once (c ∷ cs) = if c.delay == 0 then c.func ∷ at_once cs else at_once cs

abbrev pub by_time : List Call → List JobPriority
by_time [] = []
by_time (c ∷ cs) =
    if c.delay == 0 then by_time cs else new_job_priority c.now c.delay c.func ∷ by_time cs

-- What calls of Post leave.
record Posted (cs : List Call) (q q' : JobQueue) : Type 0 where
  pub active : q'.active ≡ true
  pub queue : q'.queue ≡ q.queue ++ at_once cs
  pub timers : Perm q'.queue_timer (q.queue_timer ++ by_time cs)
  pub sorted : IsSorted q'.queue_timer

post_job-at_once :
    (now f delay : ℕ) (q : JobQueue)
    → q.active ≡ true
    → (delay == 0) ≡ true
    → (post_job now (some f) delay q).1 ≡ record q { queue = q.queue ++ f ∷ [] }
unfolding post_job
post_job-at_once now f delay q a z = simp (a, z)

post_job-by_time :
    (now f delay : ℕ) (q : JobQueue)
    → q.active ≡ true
    → (delay == 0) ≡ false
    → (post_job now (some f) delay q).1
      ≡ record q { queue_timer = emplace (new_job_priority now delay f) q.queue_timer }
unfolding post_job
post_job-by_time now f delay q a z = simp (a, z)

posts-Posted :
    (cs : List Call) (q : JobQueue)
    → q.active ≡ true
    → IsSorted q.queue_timer
    → Posted cs q (posts cs q)
unfolding posts
posts-Posted [] q a s = record {
  active = a;
  queue = sym (append-nil q.queue);
  timers = subst (Perm q.queue_timer) (sym (append-nil q.queue_timer)) (Perm.refl q.queue_timer);
  sorted = s;
}
posts-Posted (c ∷ cs) q a s = elim (Bool-cases (c.delay == 0)) [
  | inl y ↦
      let q' = record q { queue = q.queue ++ c.func ∷ [] } in
      let r = posts-Posted cs q' a s in
      subst (λ p. Posted (c ∷ cs) q (posts cs p))
        (sym (post_job-at_once c.now c.func c.delay q a y))
        (record {
          active = r.active;
          queue = rw y (r.queue ∙ append_assoc q.queue (c.func ∷ []) (at_once cs));
          timers = rw y r.timers;
          sorted = r.sorted;
        })
  | inr z ↦
      let job = new_job_priority c.now c.delay c.func in
      let q' = record q { queue_timer = emplace job q.queue_timer } in
      let r = posts-Posted cs q' a (emplace-IsSorted job q.queue_timer s) in
      subst (λ p. Posted (c ∷ cs) q (posts cs p))
        (sym (post_job-by_time c.now c.func c.delay q a z))
        (record {
          active = r.active;
          queue = rw z r.queue;
          timers = rw z (
              Perm.trans r.timers (
                Perm.trans (Perm.append_right (by_time cs) (emplace-Perm job q.queue_timer))
                  (middle-Perm job q.queue_timer (by_time cs))));
          sorted = r.sorted;
        })
]

-- What Execute does after calls of Post: what it runs, and the queue after it.
pub record Executed (clock : ℕ → ℕ) (cs : List Call) (r : List ℕ × JobQueue) : Type 0 where
  pub ran : List JobPriority
  pub runs : r.0 ≡ at_once cs ++ funcs ran
  pub empties : r.1.queue ≡ []
  pub keeps : Perm (ran ++ r.1.queue_timer) (by_time cs)
  pub sorted : IsSorted (ran ++ r.1.queue_timer)
  pub due : AllDue (clock (length ran)) ran
  pub later : NotBefore (suc (clock (length ran))) r.1.queue_timer

execute_queue-active :
    (clock : ℕ → ℕ) (q : JobQueue)
    → q.active ≡ true
    → execute_queue clock q ≡ (
      q.queue ++ funcs (execute_timers clock 0 q.queue_timer).0,
      record q { queue = []; queue_timer = (execute_timers clock 0 q.queue_timer).1 },
    )
unfolding execute_queue
execute_queue-active clock q a = simp a

-- If functions are posted on a new queue and the clock does not go back while Execute runs,
-- Execute runs those without a delay in the order of posting and then, by their times, those whose
-- time has come at its last reading of the clock; what it leaves are the other jobs, in order,
-- each later than that reading.
pub execute_queue-posts :
    (clock : ℕ → ℕ) (cs : List Call)
    → ((i : ℕ) → clock i ≤ clock (suc i))
    → Executed clock cs (execute_queue clock (posts cs new_job_queue))
execute_queue-posts clock cs m =
    let q = posts cs new_job_queue in
    let posted = posts-Posted cs new_job_queue refl tt in
    let run = execute_timers clock 0 q.queue_timer in
    let r = execute_timers-Ran clock m 0 q.queue_timer posted.sorted in
    let same : clock (0 + length run.0) ≡ clock (length run.0) = ap clock (omega arith) in
    subst (Executed clock cs) (sym (execute_queue-active clock q posted.active)) (record {
      ran = run.0;
      runs = ap (λ fs. fs ++ funcs run.0) posted.queue;
      empties = refl;
      keeps = subst (λ js. Perm js (by_time cs)) (sym r.all) posted.timers;
      sorted = subst IsSorted (sym r.all) posted.sorted;
      due = subst (λ t. AllDue t run.0) same r.due;
      later = subst (λ t. NotBefore (suc t) run.1) same r.later;
    })

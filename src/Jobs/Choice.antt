-- ===== src/Jobs/Choice.antt =====
-- The queue that Job::Post chooses, and what each of the queues gets.
use network.Prelude.{
  ℕ, ◌≡◌, ◌<◌, ◌%◌, ◌∙◌, refl, ap, sym, subst, some, List, [], ◌∷◌, suc, ◌≤◌, ltb, ltb→lt,
  Bool-cases, inl, inr, if◌then◌else◌, ◌==◌, ==→eq, add32,
}
use native.Mathlib.Nat.{mod-eq_of_lt, mod-lt}
use network.Jobs.{
  JobQueue, Job, new_job, post_job, execute_queue, safe_id, post_for, no_job_id, post_here,
}
use network.Jobs.Order.{Call, posts, Executed, execute_queue-posts}

-- A call of Job::Post: with an id, or on a thread with its `tls_jobId`.
pub data JobCall : Type 0 where
  for_id : ℕ → Call → JobCall
  on_thread : ℕ → Call → JobCall

unfoldable pub post_call : JobCall → Job → Job
post_call (for_id id c) jobs = post_for c.now id (some c.func) c.delay jobs
post_call (on_thread tls c) jobs = post_here c.now tls (some c.func) c.delay jobs

unfoldable pub post_calls : List JobCall → Job → Job
post_calls [] jobs = jobs
post_calls (c ∷ cs) jobs = post_calls cs (post_call c jobs)

abbrev pub posted : JobCall → Call
posted (for_id id c) = c
posted (on_thread tls c) = c

-- Calls on threads without an id are numbered, `k` of them being past.
abbrev pub number : ℕ → JobCall → ℕ
number k (for_id id c) = k
number k (on_thread tls c) = if tls == no_job_id then add32 k 1 else k

abbrev pub wanted : ℕ → JobCall → ℕ
wanted k (for_id id c) = id
wanted k (on_thread tls c) = if tls == no_job_id then add32 k 1 else tls

-- The calls for queue `i` of `count`: those whose id is `i` modulo `count`.
abbrev pub calls_for : ℕ → ℕ → ℕ → List JobCall → List Call
calls_for count i k [] = []
calls_for count i k (c ∷ cs) =
    if i == wanted k c % count
    then posted c ∷ calls_for count i (number k c) cs
    else calls_for count i (number k c) cs

safe_id_lem : (count id : ℕ) → safe_id count id ≡ id % count
unfolding safe_id
safe_id_lem count id = elim (Bool-cases (ltb id count)) [
  | inl y ↦ rw y (sym (mod-eq_of_lt (ltb→lt id count y)))
  | inr z ↦ rw z refl
]

-- What a queue gets from a call for the id `id`.
abbrev after : ℕ → ℕ → ℕ → Call → JobQueue → JobQueue
after count i id c q = if i == id % count then (post_job c.now (some c.func) c.delay q).1 else q

post_for-queues :
    (c : Call) (id i : ℕ) (jobs : Job)
    → (post_for c.now id (some c.func) c.delay jobs).queues i
      ≡ after jobs.count i id c (jobs.queues i)
unfolding post_for
post_for-queues c id i jobs =
    rw (safe_id_lem jobs.count id) (elim (Bool-cases (i == id % jobs.count)) [
      | inl y ↦ rw y (
          ap (λ j. (post_job c.now (some c.func) c.delay (jobs.queues j)).1)
            (sym (==→eq i (id % jobs.count) y)))
      | inr z ↦ rw z refl
    ])

posts-after :
    (count i id : ℕ) (c : Call) (cs : List Call) (q : JobQueue)
    → posts cs (after count i id c q) ≡ posts (if i == id % count then c ∷ cs else cs) q
unfolding posts
posts-after count i id c cs q = elim (Bool-cases (i == id % count)) [
  | inl y ↦ rw y refl
  | inr z ↦ rw z refl
]

-- What Job::Post does: it is the call for `wanted` on a Job that has counted it.
post_call-for :
    (c : JobCall) (jobs : Job)
    → post_call c jobs
      ≡ post_for
          (posted c).now
          (wanted jobs.seq_id c)
          (some (posted c).func)
          (posted c).delay
          (record jobs { seq_id = number jobs.seq_id c })
unfolding post_call post_here
post_call-for (for_id id c) jobs = refl
post_call-for (on_thread tls c) jobs = elim (Bool-cases (tls == no_job_id)) [
  | inl y ↦ rw y refl
  | inr z ↦ rw z refl
]

post_calls-queues :
    (cs : List JobCall) (i : ℕ) (jobs : Job)
    → (post_calls cs jobs).queues i ≡ posts (calls_for jobs.count i jobs.seq_id cs) (jobs.queues i)
unfolding post_calls posts post_for
post_calls-queues [] i jobs = refl
post_calls-queues (c ∷ cs) i jobs =
    let counted = record jobs { seq_id = number jobs.seq_id c } in
    let id = wanted jobs.seq_id c in
    let rest = calls_for jobs.count i (number jobs.seq_id c) cs in
    let next = post_for (posted c).now id (some (posted c).func) (posted c).delay counted in
    ap (λ js. (post_calls cs js).queues i) (post_call-for c jobs)
    ∙ post_calls-queues cs i next
    ∙ ap (posts rest) (post_for-queues (posted c) id i counted)
    ∙ posts-after jobs.count i id (posted c) rest (jobs.queues i)

-- The queues that the calls take are within the array.
abbrev pub AllWithin : ℕ → ℕ → List JobCall → Type 0
AllWithin count k [] = Unit {0}
AllWithin count k (c ∷ cs) = (safe_id count (wanted k c) < count) × AllWithin count (number k c) cs

calls-AllWithin : (count k : ℕ) (cs : List JobCall) → 0 < count → AllWithin count k cs
calls-AllWithin count k [] h = tt
calls-AllWithin count k (c ∷ cs) h = (
  subst (λ n. n < count) (sym (safe_id_lem count (wanted k c))) (mod-lt (wanted k c) h),
  calls-AllWithin count (number k c) cs h,
)

-- Let a Job have queues for `count` processors, 0 < `count`, and let functions be posted on it,
-- with an id or on any threads. Then no call takes a queue outside the array, and Execute of any
-- queue, if the clock does not go back, runs of the functions whose id is the queue's modulo
-- `count` (threads without an id number theirs 1, 2 and so on, modulo 2 ^ 32) those without a
-- delay in the order of posting and then, by their times, those whose time has come at its last
-- reading of the clock; what it leaves are the others, in order, each later than that reading.
pub execute_queue-post_calls :
    (count i : ℕ) (cs : List JobCall) (clock : ℕ → ℕ)
    → 0 < count
    → ((t : ℕ) → clock t ≤ clock (suc t))
    → AllWithin count 0 cs
      × Executed clock
          (calls_for count i 0 cs)
          (execute_queue clock ((post_calls cs (new_job count)).queues i))
execute_queue-post_calls count i cs clock h m = (
  calls-AllWithin count 0 cs h,
  subst (λ q. Executed clock (calls_for count i 0 cs) (execute_queue clock q))
      (sym (post_calls-queues cs i (new_job count)))
      (execute_queue-posts clock (calls_for count i 0 cs) m),
)

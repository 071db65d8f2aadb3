-- ===== src/Recv/Single/Queued.antt =====
-- What the jobs of a single-threaded server hold, and what HNet::Update makes of them.
use network.Prelude.{
  ℕ, ◌≡◌, ◌≤◌, ◌∙◌, ap, sym, refl, subst, true, some, List, [], ◌∷◌, ◌++◌, map, length, take,
  append_assoc, append-nil,
}
use mathlib.Core.List.{map-append}
use network.Packet.Cipher.{decrypt}
use network.Recv.{RecvIo, IsValid, recv_job_excute}
use network.Recv.Frames.{AllPackets, flatten}
use network.Recv.Job.{job_packets}
use network.Recv.Single.{RecvJob, Server, update_loop, update}

-- A job that has the packets `ps` to go through, at the front of its buffer.
pub record Holds (job : RecvJob) (ps : List (List ℕ)) : Type 0 where
  pub valid : IsValid job.io
  pub front : job.io.begin_pos ≡ 0
  pub end_front : job.io.end_pos ≡ 0
  pub fresh : job.io.messages ≡ []
  pub all : AllPackets ps
  pub bytes : job.byte ≡ length (flatten ps)
  pub stored : take job.byte job.io.buf ≡ flatten ps
  pub fits : job.byte ≤ job.io.size

pub data Queued : List RecvJob → List (List ℕ) → Type 0 where
  no_job : Queued [] []
  job_then :
      {job : RecvJob} {jobs : List RecvJob} {ps qs : List (List ℕ)}
      → Holds job ps
      → Queued jobs qs
      → Queued (job ∷ jobs) (ps ++ qs)

-- A job that is pushed runs after the others.
pub Queued-push :
    {jobs : List RecvJob} {job : RecvJob} {ps qs : List (List ℕ)}
    → Queued jobs ps
    → Holds job qs
    → Queued (jobs ++ job ∷ []) (ps ++ qs)
Queued-push {job = job} {qs = qs} no_job h =
    subst (Queued (job ∷ [])) (append-nil qs) (job_then h no_job)
Queued-push {qs = rs} (job_then {ps = ps} {qs = qs} k q) h =
    subst (Queued _) (sym (append_assoc ps qs rs)) (job_then k (Queued-push q h))

run_job :
    (job : RecvJob) (ps : List (List ℕ))
    → Holds job ps
    → (io : RecvIo) × (recv_job_excute job.byte job.io ≡ some (true, io))
      × (io.messages ≡ map decrypt ps)
unfolding recv_job_excute
run_job job ps h =
    let (io, run, told) =
      job_packets job.io h.valid h.front h.end_front ps job.byte h.all h.bytes h.fits h.stored in
    (io, run, told ∙ ap (λ l. l ++ map decrypt ps) h.fresh)

update_loop-Queued :
    {jobs : List RecvJob} {ps : List (List ℕ)} (handed : List (List ℕ))
    → Queued jobs ps
    → update_loop jobs handed ≡ some (handed ++ map decrypt ps)
unfolding update_loop
update_loop-Queued handed no_job = ap some (sym (append-nil handed))
update_loop-Queued handed (job_then {job} {jobs} {ps} {qs} h q) =
    let (io, run, told) = run_job job ps h in
    rw (update_loop, run)
      (update_loop-Queued (handed ++ io.messages) q
        ∙ ap some (
            ap (λ l. (handed ++ l) ++ map decrypt qs) told
            ∙ append_assoc handed (map decrypt ps) (map decrypt qs)
            ∙ ap (λ l. handed ++ l) (sym (map-append decrypt ps qs))))

-- Update runs every job to its end, and hands on the packets of all of them.
pub update-Queued :
    (s : Server) (ps : List (List ℕ))
    → Queued s.queue ps
    → update s ≡ some (record s { queue = []; handed = s.handed ++ map decrypt ps })
unfolding update
update-Queued s ps q = rw (update, update_loop-Queued s.handed q) refl

-- ===== src/Recv/Job.antt =====
-- A single-threaded server: CompletedJob and the job that it posts do what Completed does.
use network.Prelude.{
  ℕ, ◌≡◌, ◌≤◌, ◌<◌, ◌+◌, ◌-◌, ◌∙◌, ap, sym, refl, subst, inl, true, Bool, Option, some, List, [],
  ◌∷◌, ◌++◌, map, length, take, drop, blit, arith, append-nil, length-append, length-take,
  take-blit_end, drop-take, take-take, take-length_append, drop-length_append, ne→==, eq→==,
}
use native.Mathlib.Decide.{ℕ_discrete}
use network.Packet.{max_size}
use network.Packet.Cipher.{decrypt}
use network.Recv.{
  RecvIo, IsValid, completed, completed_job, move_to_job, recv_job_excute, completed_loop,
}
use network.Recv.Space.{pending, length-pending}
use network.Recv.Frames.{
  Frames, IsPartial, flatten, AllPackets, Frames-split, Frames-unique, flatten-Frames,
}
use network.Recv.Passed.{completed_job-Passed}
use network.Recv.Round.{completed-Cut}

read-blit :
    (xs : List ℕ) (i : ℕ) (src : List ℕ)
    → i + length src ≤ length xs
    → take (length src) (drop i (blit xs i src)) ≡ src
read-blit xs i src h =
    let front : length (take i xs) ≡ i = omega (arith, h, length-take i xs) in
    ap (λ k. take k (drop i (blit xs i src))) {x = length src} {y = i + length src - i}
      (omega arith)
    ∙ sym (drop-take i (i + length src) (blit xs i src))
    ∙ ap (drop i) (take-blit_end xs i (i + length src) src refl h)
    ∙ ap (λ k. drop k (take i xs ++ src)) (sym front)
    ∙ drop-length_append (take i xs) src

-- The session keeps its pending bytes in its new buffer.
pub pending_moved :
    (memory : List ℕ) (t : RecvIo)
    → IsValid t
    → length memory ≡ max_size
    → (let (byte, job, io) = move_to_job memory t in pending io) ≡ pending t
unfolding move_to_job
pending_moved memory t v whole = elim (ℕ_discrete t.begin_pos t.end_pos) [
  | yes e ↦
      let nothing : t.end_pos - t.begin_pos ≡ 0 = omega (arith, e) in
      rw (eq→== t.begin_pos t.end_pos e) (
        ap (λ k. take k (drop t.begin_pos memory)) nothing
        ∙ sym (ap (λ k. take k (drop t.begin_pos t.buf)) nothing))
  | no d ↦
      let size = length-pending t v in
      rw (ne→== t.begin_pos t.end_pos d) (
        ap (λ k. take k (drop t.begin_pos (blit memory t.begin_pos (pending t)))) (sym size)
        ∙ read-blit memory t.begin_pos (pending t)
            (omega (arith, size, whole, v.fits, v.sized, v.order)))
]

-- A job of no bytes has nothing to do, and one of whole packets hands them on.
job_none : (job : RecvIo) → job.begin_pos ≡ 0 → job.end_pos ≡ 0 → completed 0 job ≡ some (true, job)
unfolding completed completed_loop
job_none job b e = rw (b, e) refl

module _ (job : RecvIo) (v : IsValid job) (b : job.begin_pos ≡ 0) (e : job.end_pos ≡ 0) where
  pub job_packets :
      (ps : List (List ℕ)) (byte : ℕ)
      → AllPackets ps
      → byte ≡ length (flatten ps)
      → byte ≤ job.size
      → take byte job.buf ≡ flatten ps
      → (j : RecvIo) × (completed byte job ≡ some (true, j))
        × (j.messages ≡ job.messages ++ map decrypt ps)
  unfolding flatten
  job_packets [] byte a n f w =
      (job, ap (λ k. completed k job) n ∙ job_none job b e, sym (append-nil job.messages))
  job_packets (p ∷ ps) byte a n f w =
      let empty : pending job ≡ [] =
        ap (λ k. take k (drop job.begin_pos job.buf)) {x = job.end_pos - job.begin_pos} {y = 0}
          (omega (arith, b, e)) in
      let c =
        completed-Cut byte job v (subst IsPartial (sym empty) (inl (omega arith)))
          (omega (arith, n, a.0.least, length-append p (flatten ps))) (omega (arith, e, f)) in
      let x_eq : take ((job.end_pos - job.begin_pos) + byte) (drop job.begin_pos job.buf)
          ≡ flatten (p ∷ ps) =
        ap (λ k. take ((job.end_pos - k) + byte) (drop k job.buf)) b
        ∙ ap (λ k. take k job.buf) {x = (job.end_pos - 0) + byte} {y = byte} (omega (arith, e))
        ∙ w in
      let (same, _, fine) =
        Frames-unique (subst (λ x. Frames x c.packets c.rest c.good) x_eq c.frames)
          (flatten-Frames (p ∷ ps) a) in
      (
        c.after,
        c.result ∙ ap (λ g. some (g, c.after)) fine,
        c.messages ∙ ap (λ l. job.messages ++ map decrypt l) same,
      )

pair-eq :
    {b c : Bool} {t u : RecvIo}
    → ◌≡◌ {A = Option (Bool × RecvIo)} (some (b, t)) (some (c, u))
    → (b ≡ c) × (t ≡ u)
pair-eq e = (cc e, cc e)

-- The packets stand at the front of the buffer.
pub packets_front :
    (s : RecvIo) (inc : ℕ) (x rest : List ℕ)
    → s.begin_pos ≡ 0
    → take inc (drop s.begin_pos s.buf) ≡ x ++ rest
    → take (length x) s.buf ≡ x
packets_front s inc x rest z e =
    let front : take inc s.buf ≡ x ++ rest = ap (λ k. take inc (drop k s.buf)) (sym z) ∙ e in
    sym (
      take-take (length x) inc s.buf
        (omega (arith, ap length front, length-append x rest, length-take inc s.buf)))
    ∙ ap (take (length x)) front
    ∙ take-length_append x rest

pub job-IsValid :
    (t : RecvIo) → IsValid t → IsValid (record t { begin_pos = 0; end_pos = 0; messages = [] })
job-IsValid t v = record {
  storage = v.storage;
  sized = v.sized;
  order = omega arith;
  fits = omega arith;
}

-- On a valid session with an incomplete packet at the start of its buffer and at least a byte
-- behind it that fits, where Completed succeeds, the single-threaded way does the same:
-- CompletedJob succeeds, and the job that operator >> makes, with a new buffer of MAX_SIZE bytes
-- for the session, runs to its end and hands on the same packets, decrypted and in order, while
-- the session keeps the same pending bytes.
pub completed-job :
    (bytes : ℕ) (s u : RecvIo) (memory : List ℕ)
    → IsValid s
    → s.begin_pos ≡ 0
    → IsPartial (pending s)
    → 0 < bytes
    → s.end_pos + bytes ≤ s.size
    → length memory ≡ max_size
    → completed bytes s ≡ some (true, u)
    → (t : RecvIo) × (j : RecvIo) × (completed_job bytes s ≡ some (true, t))
      × (let (byte, job, io) = move_to_job memory t in
          (recv_job_excute byte job ≡ some (true, j))
          × (u.messages ≡ s.messages ++ j.messages)
          × (pending io ≡ pending u))
unfolding recv_job_excute move_to_job
completed-job bytes s u memory v z h p f whole d =
    let c = completed-Cut bytes s v h p f in
    let q = completed_job-Passed bytes s v h p f in
    let (packets, rest, good) = Frames-unique q.frames c.frames in
    let (fine, same) = pair-eq (sym c.result ∙ d) in
    let t = q.after in
    let place : t.begin_pos ≡ length (flatten q.packets) =
      omega (arith, q.place (good ∙ fine), z) in
    let (split, all) = Frames-split q.frames in
    let inc : ℕ = (s.end_pos - s.begin_pos) + bytes in
    let x_eq : take (length (flatten q.packets)) t.buf ≡ flatten q.packets =
      ap (take (length (flatten q.packets))) q.same.0
      ∙ packets_front s inc (flatten q.packets) q.rest z split in
    let job : RecvIo = record t { begin_pos = 0; end_pos = 0; messages = [] } in
    let (j, run, told) =
      job_packets job (job-IsValid t q.valid) refl refl q.packets t.begin_pos all place
        (omega (arith, q.valid.order, q.valid.fits)) (ap (λ k. take k t.buf) place ∙ x_eq) in
    (
      t,
      j,
      q.result ∙ ap (λ g. some (g, t)) (good ∙ fine),
      (
        run,
        sym (ap (λ w. w.messages) same)
            ∙ c.messages
            ∙ ap (λ l. s.messages ++ map decrypt l) (sym packets)
            ∙ ap (λ l. s.messages ++ l) (sym told),
        pending_moved memory t q.valid whole
            ∙ q.kept (good ∙ fine)
            ∙ rest
            ∙ sym (c.kept fine)
            ∙ ap pending same,
      ),
    )

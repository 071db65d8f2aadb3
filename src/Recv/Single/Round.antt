-- ===== src/Recv/Single/Round.antt =====
-- One round of WSARecv and RecvedJob.
use network.Prelude.{
  ℕ, blit, false, ◌≡◌, ◌≤◌, ◌<◌, ◌+◌, ◌-◌, ◌∙◌, ap, sym, refl, subst, inl, inr, true, false, Bool,
  Option, some, List, [], ◌∷◌, ◌++◌, length, take, drop, arith, length-blit, ne→==, eq→==,
  Bool-cases,
}
use native.Mathlib.Decide.{ℕ_discrete}
use network.Packet.{max_size}
use network.Recv.{RecvIo, IsValid, Next, prepare_buffer, arrange, overlaps, move_to_job}
use network.Recv.Space.{pending, prepare-Prepared, length-pending}
use network.Recv.Frames.{Frames, IsPartial, Frames-split, flatten}
use network.Recv.Passed.{Passed, completed_job-Passed}
use network.Recv.Job.{pending_moved, packets_front, job-IsValid}
use network.Recv.Round.{answer, stored, stored-IsValid, stored_stream, pending-stored}
use network.Recv.Single.{RecvJob, Server, on_message_job, recved_job, receive_job}
use network.Recv.Single.Queued.{Holds}

moved-IsValid :
    (memory : List ℕ) (t : RecvIo)
    → IsValid t
    → length memory ≡ max_size
    → (let (byte, job, io) = move_to_job memory t in IsValid io)
unfolding move_to_job
moved-IsValid memory t v whole = elim (ℕ_discrete t.begin_pos t.end_pos) [
  | yes e ↦
      rw (eq→== t.begin_pos t.end_pos e)
        (record { storage = whole ∙ sym v.sized; sized = v.sized; order = v.order; fits = v.fits })
  | no d ↦ rw (ne→== t.begin_pos t.end_pos d) (record {
    storage = length-blit memory t.begin_pos _ ∙ whole ∙ sym v.sized;
    sized = v.sized;
    order = v.order;
    fits = v.fits;
  })
]

-- One round: what it queues, and what it passed over but did not queue.
pub record Round (s : Server) (chunk : List ℕ) (r : Option (Next × Server)) : Type 0 where
  pub good : Bool
  pub after : Server
  pub packets : List (List ℕ)
  pub rest : List ℕ
  pub result : r ≡ some (answer good, after)
  pub frames : Frames (pending s.io ++ chunk) packets rest good
  pub handed : after.handed ≡ s.handed
  pub queued :
      good ≡ true → (job : RecvJob) × (after.queue ≡ s.queue ++ job ∷ []) × Holds job packets
  pub dropped : good ≡ false → after.queue ≡ s.queue
  pub kept : good ≡ true → pending after.io ≡ rest
  pub valid : IsValid after.io

-- What `_OnMessageJob` queues is the packets that CompletedJob passed over.
passed-Holds :
    (inc : ℕ) (x : List ℕ) (t : RecvIo) {r : Option (Bool × RecvIo)} (q : Passed x t r)
    → x ≡ take inc (drop t.begin_pos t.buf)
    → t.begin_pos ≡ 0
    → q.good ≡ true
    → Holds
        (record {
          byte = q.after.begin_pos;
          io = record q.after { begin_pos = 0; end_pos = 0; messages = [] };
        })
        q.packets
passed-Holds inc x t q here front good =
    let place : q.after.begin_pos ≡ length (flatten q.packets) =
      omega (arith, q.place good, front) in
    let (split, all) = Frames-split q.frames in
    record {
      valid = job-IsValid q.after q.valid;
      front = refl;
      end_front = refl;
      fresh = refl;
      all = all;
      bytes = place;
      stored =
          ap (λ k. take k q.after.buf) place
          ∙ ap (take (length (flatten q.packets))) q.same.0
          ∙ packets_front t inc (flatten q.packets) q.rest front (sym here ∙ split);
      fits = omega (arith, q.valid.order, q.valid.fits);
    }

recved_job-Round :
    (s : Server) (t : RecvIo) (chunk memory : List ℕ) (v : IsValid t) (front : t.begin_pos ≡ 0)
    (f : t.end_pos + length chunk ≤ t.size)
    → pending t ≡ pending s.io
    → IsPartial (pending t)
    → 0 < length chunk
    → length memory ≡ max_size
    → Round s chunk (recved_job (length chunk) memory (record s { io = stored t chunk v front f }))
unfolding recved_job on_message_job move_to_job
recved_job-Round s t chunk memory v front f same h p whole =
    let u = stored t chunk v front f in
    let w = stored-IsValid t chunk v front f in
    let q =
      completed_job-Passed (length chunk) u w
        (subst IsPartial (sym (pending-stored t chunk v front f)) h) p f in
    let frames =
      subst (λ x. Frames x q.packets q.rest q.good)
        (stored_stream t chunk v front f ∙ ap (λ l. l ++ chunk) same) q.frames in
    elim (Bool-cases q.good) [
      | inl e ↦
          rw (ne→== (length chunk) 0 (omega arith), q.result, e)
            (record {
              good = true;
              after = on_message_job memory (record s { io = q.after });
              packets = q.packets;
              rest = q.rest;
              result = refl;
              frames = subst (Frames _ q.packets q.rest) e frames;
              handed = refl;
              queued = λ _. (_, refl, passed-Holds _ _ u q refl front e);
              dropped = λ k. cc k;
              kept = λ _. pending_moved memory q.after q.valid whole ∙ q.kept e;
              valid = moved-IsValid memory q.after q.valid whole;
            })
      | inr e ↦
          rw (ne→== (length chunk) 0 (omega arith), q.result, e)
            (record {
              good = false;
              after = record s { io = q.after };
              packets = q.packets;
              rest = q.rest;
              result = refl;
              frames = subst (Frames _ q.packets q.rest) e frames;
              handed = refl;
              queued = λ k. cc k;
              dropped = λ _. refl;
              kept = λ k. cc k;
              valid = q.valid;
            })
    ]

receive_job-apart :
    (stale : ℕ) (chunk memory : List ℕ) (s : Server)
    → overlaps s.io ≡ false
    → let (_, at, t) = arrange stale s.io in
      receive_job stale chunk memory s
      ≡ recved_job (length chunk) memory (record s { io = record t { buf = blit t.buf at chunk } })
unfolding receive_job prepare_buffer
receive_job-apart stale chunk memory s apart = rw (receive_job, prepare_buffer, apart) refl

pub receive_job-Round :
    (stale : ℕ) (chunk memory : List ℕ) (s : Server)
    → IsValid s.io
    → IsPartial (pending s.io)
    → overlaps s.io ≡ false
    → 0 < length chunk
    → (s.io.end_pos - s.io.begin_pos) + length chunk ≤ s.io.size
    → length memory ≡ max_size
    → Round s chunk (receive_job stale chunk memory s)
receive_job-Round stale chunk memory s v h apart p f whole =
    let t = (arrange stale s.io).2 in
    let q = prepare-Prepared stale s.io v in
    let kept_size : t.end_pos ≡ s.io.end_pos - s.io.begin_pos =
      omega (arith, q.front, length-pending t q.valid, length-pending s.io v, ap length q.same) in
    subst (Round s chunk) (sym (receive_job-apart stale chunk memory s apart)) (
      rw q.behind (
        recved_job-Round s t chunk memory q.valid q.front (omega (arith, q.valid.sized, v.sized))
          q.same (subst IsPartial (sym q.same) h) p whole))

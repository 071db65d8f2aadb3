-- ===== src/Send/Job.antt =====
-- HNetIoSend::SendJob and SendedJob in Network/HNetIo.cpp: sending from a single-threaded server.
use network.Prelude.{
  ℕ, ◌≡◌, ◌<◌, ◌+◌, refl, true, false, Bool, none, some, List, [], ◌∷◌, ◌++◌, ◌==◌, length, arith,
  if◌then◌else◌,
}
use network.Packet.{max_size}
use network.Send.{
  Gathering, empty_gathering, SendIo, append_loop, Outcome, done, blocked, endless, head_bytes,
  part_tail, post,
}
use network.Send.Queue.{append_fits}

-- SendJob. The first message queues a job, which `_OnSendJob` does and which leaves the ring alone.
unfoldable pub send_job : ℕ → List ℕ → SendIo → Outcome
send_job fuel buf s =
    if s.locked
    then blocked
    else (if s.made
        then (elim (append_loop fuel buf s) [
          | none ↦ endless
          | some t ↦ if t.pending then done t else done (record t { pending = true })
        ])
        else done (record s { locked = true }))

-- `_head->_count`
unfoldable pub head_count : SendIo → ℕ
head_count s = elim s.ahead [ [] ↦ s.tail.count | g ∷ gs ↦ g.count ]

-- SendedJob up to the call of `_Send`.
unfoldable pub sended_job : SendIo → SendIo
sended_job s =
    if head_count s == 0 then record s { pending = false } else record (part_tail s) { due = true }

-- A ring of one buffer, as Initialize makes it: `g` is in it.
abbrev pub ring : Gathering → Bool → Bool → List (List ℕ) → SendIo
ring g pending due sent = record {
  ahead = [];
  tail = g;
  free = [];
  made = true;
  pending = pending;
  locked = false;
  due = due;
  sent = sent;
}

abbrev pub holding : List ℕ → ℕ → Gathering
holding bytes count = record { bytes = bytes; count = count }

send_job-ring :
    (g : Gathering) (pending : Bool) (sent : List (List ℕ)) (buf : List ℕ)
    → length buf + length g.bytes < max_size
    → send_job 1 buf (ring g pending false sent)
      ≡ done (ring (holding (g.bytes ++ buf) (g.count + 1)) true false sent)
unfolding send_job append_loop
send_job-ring g true sent buf h = rw (append_fits g buf h) refl
send_job-ring g false sent buf h = rw (append_fits g buf h) refl

-- On a ring of one buffer at rest, as Initialize makes it, SendJob accepts a message, and
-- SendedJob and `_Send` post it; then, before it has completed, a second SendJob puts its message
-- into the buffer that is being sent, if both together are shorter than MAX_SIZE.
pub send_job-shares :
    (first second : List ℕ)
    → length first + length second < max_size
    → let t = ring (holding first 1) true false [] in
      let u = post (sended_job t) in
      let w = ring (holding (first ++ second) 2) true false (first ∷ []) in
      (send_job 1 first (ring empty_gathering false false []) ≡ done t)
      × (u.sent ≡ first ∷ [])
      × (send_job 1 second u ≡ done w)
      × (head_bytes w ≡ first ++ second)
unfolding sended_job head_count part_tail post head_bytes
send_job-shares first second h = (
  send_job-ring empty_gathering false [] first (omega arith),
  refl,
  send_job-ring (holding first 1) true (first ∷ []) second (omega arith),
  refl,
)

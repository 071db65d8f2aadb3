-- ===== src/Recv/Single.antt =====
-- The receiving of a session of a single-threaded server: HNetIoRecv::RecvedJob in Network/HNetIo.cpp,
-- `_OnMessageJob` in Network/HNetSession.cpp, and HNet::Update. The queue holds the jobs of this session's receives.
use network.Prelude.{
  ℕ, ◌≡◌, ◌<◌, ◌≤◌, ◌+◌, ◌-◌, Bool, true, false, Option, none, some, List, [], ◌∷◌, ◌++◌, ◌==◌,
  if◌then◌else◌, length, blit,
}
use network.Packet.{max_size}
use network.Recv.{
  RecvIo, Next, recv, disconnect_closed, disconnect_error, prepare_buffer, overlaps, completed_job,
  move_to_job, recv_job_excute,
}
pub mod Queued
pub mod Round
pub mod Served
mod Tests

-- `_byte`, and the HNetIoRecv that the job is.
pub record RecvJob : Type 0 where
  pub byte : ℕ
  pub io : RecvIo

-- The session's HNetIoRecv, `_ioJobQueue`, and what HNet was handed, in the order of the calls.
pub record Server : Type 0 where
  pub io : RecvIo
  pub queue : List RecvJob
  pub handed : List (List ℕ)

-- `_OnMessageJob`, with the memory that Flip gets: HNetIoRecvJob's constructor, and HNet::_AddIoJob.
unfoldable pub on_message_job : List ℕ → Server → Server
on_message_job memory s =
    let (byte, job, io) = move_to_job memory s.io in
    record s { io = io; queue = s.queue ++ record { byte = byte; io = job } ∷ [] }

-- RecvedJob; CompletedJob calls `_OnMessageJob` before it returns true.
unfoldable pub recved_job : ℕ → List ℕ → Server → Option (Next × Server)
recved_job bytes memory s =
    if bytes == 0 then some (disconnect_closed, s) else (elim (completed_job bytes s.io) [
      | none ↦ none
      | some (true, io) ↦ some (recv, on_message_job memory (record s { io = io }))
      | some (false, io) ↦ some (disconnect_error, record s { io = io })
    ])

-- One round: PrepareBuffer, the bytes that WSARecv stores, and RecvedJob; `none` where one of them is.
unfoldable pub receive_job : ℕ → List ℕ → List ℕ → Server → Option (Next × Server)
receive_job stale chunk memory s = elim (prepare_buffer stale s.io) [
  | none ↦ none
  | some (_, at, io) ↦
      recved_job (length chunk) memory (record s { io = record io { buf = blit io.buf at chunk } })
]

-- The loop of HNet::Update, with what HNet was handed; Excute does not look at what Completed answers.
unfoldable pub update_loop : List RecvJob → List (List ℕ) → Option (List (List ℕ))
update_loop [] handed = some handed
update_loop (job ∷ jobs) handed = elim (recv_job_excute job.byte job.io) [
  | none ↦ none
  | some (_, io) ↦ update_loop jobs (handed ++ io.messages)
]

-- HNet::Update; it holds the lock that `_AddIoJob` takes.
unfoldable pub update : Server → Option Server
update s = elim (update_loop s.queue s.handed) [
  | none ↦ none
  | some handed ↦ some (record s { queue = []; handed = handed })
]

-- A connection from a state `s`, with the bytes that have come: rounds of WSARecv and RecvedJob with chunks
-- and kept bytes as in `Run`, and calls of Update between them, also when the session receives no more.
pub data Serve (s : Server) : List ℕ → Next → Server → Type 0 where
  begin_serving : Serve s [] recv s
  serve_round :
      {x y : List ℕ} {n : Next} {t u : Server} (stale : ℕ) (chunk memory : List ℕ)
      → Serve s x recv t
      → overlaps t.io ≡ false
      → 0 < length chunk
      → (t.io.end_pos - t.io.begin_pos) + length chunk ≤ t.io.size
      → length memory ≡ max_size
      → y ≡ x ++ chunk
      → receive_job stale chunk memory t ≡ some (n, u)
      → Serve s y n u
  serve_update :
      {x : List ℕ} {n : Next} {t u : Server} → Serve s x n t → update t ≡ some u → Serve s x n u

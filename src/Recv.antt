-- ===== src/Recv.antt =====
-- HNetIoRecv in Network/HNetIo.cpp: the receive buffer of a session and the packets cut from it.
-- WSARecv is the environment: it stores at most `len` bytes at the address that PrepareBuffer gives.
use network.Prelude.{
  ℕ, zero, suc, ◌≡◌, ◌≤◌, ◌+◌, ◌-◌, Bool, true, false, not, Option, none, some, List, [], ◌∷◌, ◌++◌,
  ltb, leb, ◌==◌, if◌then◌else◌, length, take, drop, blit, add32, sub32,
}
use network.Packet.{Packet, check, view, header_size, max_size}
use network.Packet.Cipher.{decrypt}
pub mod Space
pub mod Frames
pub mod Step
pub mod Ends
pub mod Loop
pub mod Round
pub mod Delivery
pub mod Passed
pub mod Job
pub mod Single
mod Tests

-- `_buf`, `_size`, `_begin`, `_end`, and the messages that `_OnMessage` has handed to HNet, each as
-- the bytes of its packet.
pub record RecvIo : Type 0 where
  pub buf : List ℕ
  pub size : ℕ
  pub begin_pos : ℕ
  pub end_pos : ℕ
  pub messages : List (List ℕ)

-- Create and Initialize, with the memory that Alloc gives.
pub initialize : List ℕ → RecvIo → RecvIo
initialize memory s = record s { buf = memory; size = max_size; begin_pos = 0; end_pos = 0 }

-- IsValid
unfoldable pub is_valid : ℕ → Bool
is_valid size = leb header_size size

-- The memcpy of PrepareBuffer copies within one buffer: its bytes overlap when more are kept than lie before
-- them.
unfoldable pub overlaps : RecvIo → Bool
overlaps s =
    if s.begin_pos == s.end_pos
    then false
    else (if not (s.begin_pos == 0) then ltb s.begin_pos (sub32 s.end_pos s.begin_pos) else false)

-- What PrepareBuffer leaves where they do not overlap: `len`, the offset of `buf`, and the new state. `stale` is what the thread's static
-- WSABUF held in `len` before: the branch that sets nothing keeps it.
unfoldable pub arrange : ℕ → RecvIo → ℕ × ℕ × RecvIo
arrange stale s =
    if s.begin_pos == s.end_pos
    then (s.size, 0, record s { begin_pos = 0; end_pos = 0 })
    else (if not (s.begin_pos == 0)
        then (let rest = sub32 s.end_pos s.begin_pos in
            (
              sub32 s.size rest,
              rest,
              record s {
                buf = blit s.buf 0 (take rest (drop s.begin_pos s.buf));
                begin_pos = 0;
                end_pos = rest;
              },
            ))
        else (stale, s.end_pos, s))

-- PrepareBuffer; a memcpy of bytes that overlap is undefined, which is `none`.
unfoldable pub prepare_buffer : ℕ → RecvIo → Option (ℕ × ℕ × RecvIo)
prepare_buffer stale s = if overlaps s then none else some (arrange stale s)

-- `packet` in Completed.
abbrev pub packet_at : RecvIo → Packet
packet_at s = view (drop s.begin_pos s.buf)

-- HNetSession::_OnMessage: the body is decrypted in place, and the packet handed on.
unfoldable pub on_message : RecvIo → RecvIo
on_message s =
    let opened = decrypt (drop s.begin_pos s.buf) in
    record s {
      buf = take s.begin_pos s.buf ++ opened;
      messages = s.messages ++ take (packet_at s).size opened ∷ [];
    }

-- The packet at `_begin` is done with.
abbrev pub advance : ℕ → RecvIo → RecvIo
advance n s = record s { begin_pos = add32 s.begin_pos n; end_pos = add32 s.begin_pos n }

-- The loop of Completed, on fuel; `none` means that it ran out.
unfoldable pub completed_loop : ℕ → ℕ → ℕ → RecvIo → Option (Bool × RecvIo)
completed_loop zero bytes incomplete s = none
completed_loop (suc fuel) bytes incomplete s =
    let n = (packet_at s).size in
    let rest =
      completed_loop fuel (sub32 bytes (sub32 n (sub32 s.end_pos s.begin_pos))) (sub32 incomplete n)
        (advance n (on_message s)) in
    if bytes == 0
    then some (true, s)
    else (if not (is_valid incomplete)
        then some (true, record s { end_pos = add32 s.end_pos bytes })
        else (if not (check (packet_at s))
            then some (false, s)
            else (if ltb incomplete n
                then some (true, record s { end_pos = add32 s.end_pos bytes })
                else rest)))

-- Completed. Every packet takes four bytes at least of what is incomplete, so this fuel suffices.
unfoldable pub completed : ℕ → RecvIo → Option (Bool × RecvIo)
completed bytes s =
    let incomplete = add32 (sub32 s.end_pos s.begin_pos) bytes in
    completed_loop (suc incomplete) bytes incomplete s

-- What Recved does next.
pub data Next : Type 0 where
  recv : Next
  disconnect_closed : Next
  disconnect_error : Next

-- Recved, without the performance counters.
unfoldable pub recved : ℕ → RecvIo → Option (Next × RecvIo)
recved bytes s = if bytes == 0 then some (disconnect_closed, s) else (elim (completed bytes s) [
  | none ↦ none
  | some (done, s') ↦ some ((if done then recv else disconnect_error), s')
])

-- One round: PrepareBuffer, the bytes that WSARecv stores, and Recved; `none` where one of them is.
unfoldable pub receive : ℕ → List ℕ → RecvIo → Option (Next × RecvIo)
receive stale chunk s = elim (prepare_buffer stale s) [
  | none ↦ none
  | some (_, at, s') ↦ recved (length chunk) (record s' { buf = blit s'.buf at chunk })
]

-- The loop of CompletedJob, on fuel: as that of Completed, but no packet is handed on.
unfoldable pub job_loop : ℕ → ℕ → ℕ → RecvIo → Option (Bool × RecvIo)
job_loop zero bytes incomplete s = none
job_loop (suc fuel) bytes incomplete s =
    let n = (packet_at s).size in
    let rest =
      job_loop fuel (sub32 bytes (sub32 n (sub32 s.end_pos s.begin_pos))) (sub32 incomplete n)
        (advance n s) in
    if bytes == 0
    then some (true, s)
    else (if not (is_valid incomplete)
        then some (true, record s { end_pos = add32 s.end_pos bytes })
        else (if not (check (packet_at s))
            then some (false, s)
            else (if ltb incomplete n
                then some (true, record s { end_pos = add32 s.end_pos bytes })
                else rest)))

-- CompletedJob, before it calls _OnMessageJob.
unfoldable pub completed_job : ℕ → RecvIo → Option (Bool × RecvIo)
completed_job bytes s =
    let incomplete = add32 (sub32 s.end_pos s.begin_pos) bytes in
    job_loop (suc incomplete) bytes incomplete s

-- operator >>, with the memory that Flip gets: the bytes that the job has to go through, the job's
-- HNetIoRecv, and the session's.
unfoldable pub move_to_job : List ℕ → RecvIo → ℕ × RecvIo × RecvIo
move_to_job memory s = (
  s.begin_pos,
  record s { begin_pos = 0; end_pos = 0; messages = [] },
  record s {
    buf =
        if s.begin_pos == s.end_pos
        then memory
        else blit memory s.begin_pos (take (s.end_pos - s.begin_pos) (drop s.begin_pos s.buf));
  },
)

-- HNetIoRecvJob::Excute
unfoldable pub recv_job_excute : ℕ → RecvIo → Option (Bool × RecvIo)
recv_job_excute byte job = completed byte job

-- The bounds that the operations keep.
pub record IsValid (s : RecvIo) : Type 0 where
  pub storage : length s.buf ≡ s.size
  pub sized : s.size ≡ max_size
  pub order : s.begin_pos ≤ s.end_pos
  pub fits : s.end_pos ≤ s.size

-- ===== src/WsRecv.antt =====
-- HNetIoWsRecv in Network/HNetIo.cpp: the receive buffer of a WebSocket session and the frames in it. It has the same
-- buffer as HNetIoRecv, and counts the pongs that are sent.
use network.Prelude.{
  ℕ, zero, suc, ◌≡◌, ◌+◌, ◌-◌, Bool, true, false, not, Option, none, some, List, [], ◌∷◌, ◌++◌, ltb,
  leb, ◌==◌, if◌then◌else◌, length, take, drop, blit, add32, sub32,
}
use network.Packet.{max_size}
use network.Recv.{RecvIo, Next, recv, disconnect_closed, disconnect_error, prepare_buffer, advance}
use network.Recv
use network.Ws.{ws_size, ws_check, data_size, opcode, to_packet}
pub mod Frame
pub mod Turn
pub mod Kept
pub mod Loop
pub mod Delivery
pub mod Whole
mod Tests

pub record WsRecvIo : Type 0 where
  pub io : RecvIo
  pub pongs : ℕ

-- Create and Initialize, with the memory that Alloc gives.
pub ws_recv_initialize : List ℕ → WsRecvIo → WsRecvIo
ws_recv_initialize memory s = record s { io = Recv.initialize memory s.io }

-- IsValid: sizeof(HNetWsPacket::Header) is 2.
unfoldable pub ws_is_valid : ℕ → Bool
ws_is_valid size = leb 2 size

-- GetWsaBuf: the same as PrepareBuffer, its memcpy as well; `none` where that is undefined.
unfoldable pub get_wsa_buf : ℕ → WsRecvIo → Option (ℕ × ℕ × WsRecvIo)
get_wsa_buf stale s = elim (prepare_buffer stale s.io) [
  | none ↦ none
  | some (len, at, io) ↦ some (len, at, record s { io = io })
]

-- `header` in Completed.
abbrev pub frame_at : WsRecvIo → List ℕ
frame_at s = drop s.io.begin_pos s.io.buf

-- `_Pong`, whose send holds no bytes.
abbrev pub pong : WsRecvIo → WsRecvIo
pong s = record s { pongs = s.pongs + 1 }

-- HNetSession::_OnMessage of the packet in the frame: its size, and the data.
abbrev pub on_ws_message : WsRecvIo → WsRecvIo
on_ws_message s =
    let m = frame_at s in
    let (at, opened) = to_packet m in
    record s {
      io = record s.io {
        buf = take s.io.begin_pos s.io.buf ++ opened;
        messages = s.io.messages ++ take (2 + data_size m) (drop at opened) ∷ [];
      };
    }

-- `_Preprocess`: what it answers, and the new state.
unfoldable pub preprocess : WsRecvIo → ℕ × WsRecvIo
preprocess s =
    let m = frame_at s in
    let told = on_ws_message s in
    if opcode m == 8
    then (0, s)
    else (if opcode m == 9
        then (ws_size m, pong s)
        else (if opcode m == 10 then (ws_size m, s) else (ws_size (frame_at told), told)))

-- The frame of `n` bytes is done with.
abbrev pub ws_advance : ℕ → WsRecvIo → WsRecvIo
ws_advance n s = record s { io = advance n s.io }

abbrev pub keep_bytes : ℕ → WsRecvIo → WsRecvIo
keep_bytes bytes s = record s { io = record s.io { end_pos = add32 s.io.end_pos bytes } }

-- The loop of Completed, on fuel; `none` means that it ran out.
unfoldable pub ws_completed_loop : ℕ → ℕ → ℕ → WsRecvIo → Option (Bool × WsRecvIo)
ws_completed_loop zero bytes incomplete s = none
ws_completed_loop (suc fuel) bytes incomplete s =
    let n = (preprocess s).0 in
    let t = (preprocess s).1 in
    let rest =
      ws_completed_loop fuel (sub32 bytes (sub32 n (sub32 t.io.end_pos t.io.begin_pos)))
        (sub32 incomplete n) (ws_advance n t) in
    if bytes == 0
    then some (true, s)
    else (if not (ws_is_valid incomplete)
        then some (true, keep_bytes bytes s)
        else (if not (ws_check (frame_at s))
            then some (false, s)
            else (if ltb incomplete (ws_size (frame_at s))
                then some (true, keep_bytes bytes s)
                else (if n == 0 then some (false, t) else rest))))

-- Completed. A frame takes a byte at least of what is incomplete.
unfoldable pub ws_completed : ℕ → WsRecvIo → Option (Bool × WsRecvIo)
ws_completed bytes s =
    let incomplete = add32 (sub32 s.io.end_pos s.io.begin_pos) bytes in
    ws_completed_loop (suc incomplete) bytes incomplete s

-- RecvedWs
unfoldable pub recved_ws : ℕ → WsRecvIo → Option (Next × WsRecvIo)
recved_ws bytes s =
    if bytes == 0 then some (disconnect_closed, s) else (elim (ws_completed bytes s) [
      | none ↦ none
      | some (done, t) ↦ some ((if done then recv else disconnect_error), t)
    ])

-- One round: GetWsaBuf, the bytes that WSARecv stores, and RecvedWs; `none` where one of them is.
unfoldable pub receive_ws : ℕ → List ℕ → WsRecvIo → Option (Next × WsRecvIo)
receive_ws stale chunk s = elim (get_wsa_buf stale s) [
  | none ↦ none
  | some (_, at, t) ↦
      recved_ws (length chunk) (record t { io = record t.io { buf = blit t.io.buf at chunk } })
]

-- Receive after receive, as long as RecvedWs goes on; each is the thread's `len` from before and the bytes.
unfoldable pub receive_ws_all : List (ℕ × List ℕ) → WsRecvIo → Option (Next × WsRecvIo)
receive_ws_all [] s = some (recv, s)
receive_ws_all ((stale, chunk) ∷ cs) s = elim (receive_ws stale chunk s) [
  | none ↦ none
  | some (recv, t) ↦ receive_ws_all cs t
  | some (disconnect_closed, t) ↦ some (disconnect_closed, t)
  | some (disconnect_error, t) ↦ some (disconnect_error, t)
]

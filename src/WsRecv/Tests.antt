-- ===== src/WsRecv/Tests.antt =====
-- Two frames in one receive, and frames that come in pieces.
use network.Prelude.{
  take, drop, ◌++◌, ◌≢◌, ◌≤◌, ◌<◌, ◌%◌, length, ℕ, ◌≡◌, refl, arith, List, [], ◌∷◌, some, replicate,
}
use network.Packet.{max_size}
use network.Recv.{disconnect_error, prepare_buffer, arrange, overlaps}
use network.Ws.{ws_check, ws_size, data_size}
use network.WsRecv.{
  WsRecvIo, receive_ws, recved_ws, ws_completed, ws_completed_loop, ws_is_valid, get_wsa_buf,
}
use network.WsRecv.Frame.{DataFrame, frame_bytes}
use network.WsRecv.Turn.{IsFrame}
use network.WsRecv.Whole.{AllData}

abbrev hello : DataFrame
hello = record { head = 130; j = 1; k = 2; l = 3; q = 4; body = 72 ∷ 105 ∷ [] }

abbrev empty_frame : DataFrame
empty_frame = record { head = 129; j = 9; k = 9; l = 9; q = 9; body = [] }

abbrev two_frames : List DataFrame
two_frames = hello ∷ empty_frame ∷ []

abbrev new_session : WsRecvIo
new_session = record {
  io = record {
    buf = replicate 32500 0;
    size = max_size;
    begin_pos = 0;
    end_pos = 0;
    messages = [];
  };
  pongs = 0;
}

two_frames-AllData : AllData two_frames
two_frames-AllData = (
  record {
    no_close = omega arith;
    no_ping = omega arith;
    no_pong = omega arith;
    small = omega arith;
  },
  (
    record {
      no_close = omega arith;
      no_ping = omega arith;
      no_pong = omega arith;
      small = omega arith;
    },
    tt,
  ),
)

-- A ping without data between the two frames; the first chunk ends within the masking key.
abbrev ping_frame : DataFrame
ping_frame = record { head = 137; j = 5; k = 6; l = 7; q = 8; body = [] }

abbrev first_chunk : List ℕ
first_chunk = take 4 (frame_bytes hello)

-- The rest of `hello`, the ping, and the first byte of the last frame.
abbrev second_chunk : List ℕ
second_chunk = drop 4 (frame_bytes hello) ++ (frame_bytes ping_frame ++ 129 ∷ [])

abbrev third_chunk : List ℕ
third_chunk = drop 1 (frame_bytes empty_frame)

small-IsFrame :
    (f : DataFrame) → f.head % 16 ≢ 8 → length (frame_bytes f) ≤ 10 → length f.body < 10 → IsFrame f
small-IsFrame f p h b = record { no_close = p; small = omega arith; fits = omega (arith, h) }

abbrev hello-IsFrame : IsFrame hello
hello-IsFrame = small-IsFrame hello (omega arith) (omega arith) (omega arith)

abbrev ping-IsFrame : IsFrame ping_frame
ping-IsFrame = small-IsFrame ping_frame (omega arith) (omega arith) (omega arith)

abbrev empty-IsFrame : IsFrame empty_frame
empty-IsFrame = small-IsFrame empty_frame (omega arith) (omega arith) (omega arith)

-- What an earlier frame left behind `_end` is taken for the length of a frame whose first two bytes have come.
length_cut :
    (t : WsRecvIo) × (receive_ws 7 (130 ∷ 254 ∷ []) (record {
      io = record {
        buf = 0 ∷ 0 ∷ 200 ∷ 0 ∷ [];
        size = max_size;
        begin_pos = 0;
        end_pos = 0;
        messages = [];
      };
      pongs = 0;
    })
      ≡ some (disconnect_error, t))
unfolding receive_ws recved_ws ws_completed ws_completed_loop ws_is_valid get_wsa_buf prepare_buffer
    arrange overlaps ws_check ws_size data_size
length_cut = (_, refl)

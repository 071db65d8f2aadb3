-- ===== src/WsRecv/Whole.antt =====
-- Frames with data that come whole in one receive.
use network.Prelude.{
  ℕ, ◌≡◌, ◌≤◌, ◌<◌, ◌-◌, ◌∙◌, refl, ap, sym, inl, inr, List, [], ◌∷◌, ◌++◌, length, drop, take, map,
  arith, length-append, append-nil, some,
}
use network.Packet.{max_size}
use network.Recv.{IsValid, recv}
use network.Recv.Space.{pending, length-pending, overlaps-false}
use network.WsRecv.{WsRecvIo, receive_ws}
use network.WsRecv.Frame.{DataFrame, IsData, frame_bytes, packet_of}
use network.WsRecv.Turn.{IsPiece, told_by-data, pings_in-none}
use network.WsRecv.Kept.{frames_bytes, AllFrames, told_by_all, pings_in_all}
use network.WsRecv.Delivery.{Starts, receive_ws-Received}

abbrev pub AllData : List DataFrame → Type 0
AllData [] = Unit {0}
AllData (f ∷ fs) = IsData f × AllData fs

data_told : (fs : List DataFrame) → AllData fs → told_by_all fs ≡ map packet_of fs
data_told [] a = refl
data_told (f ∷ fs) (d, a) = (λ i. told_by-data f d.no_ping d.no_pong i ++ data_told fs a i)

data_pings : (fs : List DataFrame) → AllData fs → pings_in_all fs ≡ 0
data_pings [] a = refl
data_pings (f ∷ fs) (d, a) = omega (arith, pings_in-none f d.no_ping, data_pings fs a)

data-AllFrames :
    (fs : List DataFrame) → AllData fs → length (frames_bytes fs) ≤ max_size → AllFrames fs
data-AllFrames [] a h = tt
data-AllFrames (f ∷ fs) (d, a) h =
    let l = length-append (frame_bytes f) (frames_bytes fs) in
    (
      record { no_close = d.no_close; small = d.small; fits = omega (arith, l, h) },
      data-AllFrames fs a (omega (arith, l, h)),
    )

nothing-Starts : (fs : List DataFrame) → Starts [] fs
nothing-Starts [] = tt
nothing-Starts (f ∷ fs) = (frame_bytes f, refl, omega arith)

pub nothing-IsPiece : IsPiece []
nothing-IsPiece = record {
  frame = record { head = 130; j = 0; k = 0; l = 0; q = 0; body = [] };
  others = frame_bytes (record { head = 130; j = 0; k = 0; l = 0; q = 0; body = [] });
  is_frame = record { no_close = omega arith; small = omega arith; fits = omega arith };
  splits = refl;
  more = omega arith;
  header = inl (omega arith);
}

-- On a valid WebSocket session with nothing pending, let one receive bring exactly some frames (at
-- least a byte in all, no more than the buffer has) that a client has made as RFC 6455 says, none
-- of them a close, ping or pong, each with fewer than 65528 bytes of data: then RecvedWs goes on
-- to receive, one packet is handed on for each frame, in order, with the frame's length as its
-- size and the unmasked data behind it, no pong is sent, and nothing is left pending.
pub receive_ws-HandedOn :
    (stale : ℕ) (fs : List DataFrame) (s : WsRecvIo)
    → IsValid s.io
    → s.io.begin_pos ≡ s.io.end_pos
    → AllData fs
    → 0 < length (frames_bytes fs)
    → length (frames_bytes fs) ≤ s.io.size
    → (t : WsRecvIo) × (receive_ws stale (frames_bytes fs) s ≡ some (recv, t))
      × (t.io.messages ≡ s.io.messages ++ map packet_of fs)
      × (t.pongs ≡ s.pongs)
      × (t.io.begin_pos ≡ t.io.end_pos)
receive_ws-HandedOn stale fs s v e a p f =
    let none : pending s.io ≡ [] =
      ap (λ k. take k (drop s.io.begin_pos s.io.buf)) {x = s.io.end_pos - s.io.begin_pos} {y = 0}
        (omega (arith, e)) in
    let (r, place) =
      receive_ws-Received stale (frames_bytes fs) [] [] fs s
        (data-AllFrames fs a (omega (arith, f, v.sized))) nothing-IsPiece v none
        (overlaps-false s.io v (inr (omega (arith, e)))) (nothing-Starts fs) p
        (omega (arith, f, v.sized)) (sym (append-nil (frames_bytes fs))) in
    (
      r.after,
      r.result,
      r.messages ∙ ap (λ l. s.io.messages ++ l) (data_told fs a),
      omega (arith, r.pongs, data_pings fs a),
      omega (arith, ap length r.kept, length-pending r.after.io r.valid, r.valid.order),
    )

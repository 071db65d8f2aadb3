-- ===== src/WsRecv/Delivery.antt =====
-- What a WebSocket session hands on: of frames that come whole, and of frames that come in pieces.
use network.Prelude.{
  ℕ, blit, false, ◌⊎◌, ◌≡◌, ◌≤◌, ◌<◌, ◌+◌, ◌-◌, ◌∙◌, refl, ap, sym, subst, List, [], ◌∷◌, ◌++◌,
  length, arith, length-append, ne→==, Option, some, add32, sub32,
}
use network.Packet.{max_size}
use network.Recv.{IsValid, Next, recv, arrange, overlaps, prepare_buffer}
use network.Recv.Space.{pending, prepare-Prepared, length-pending}
use network.Recv.Round.{stored, stored-IsValid, stored_stream}
use network.WsRecv.{WsRecvIo, ws_completed, receive_ws, recved_ws, get_wsa_buf}
use network.WsRecv.Frame.{DataFrame, frame_bytes}
use network.WsRecv.Turn.{IsPiece}
use network.WsRecv.Kept.{
  frames_bytes, AllFrames, told_by_all, pings_in_all, Within, HandedOn, Ready,
}
use network.WsRecv.Loop.{loop-HandedOn}

-- Bytes that have come before are the start of the first of the frames.
abbrev pub Starts : List ℕ → List DataFrame → Type 0
Starts w [] = Unit {0}
Starts w (f ∷ fs) = (y : List ℕ) × (frame_bytes f ≡ w ++ y) × (0 < length y)

-- Of bytes that are kept from `_begin` on, no more than lie before them, or they are at the front: GetWsaBuf
-- moves them by a memcpy, which must not overlap.
abbrev pub Apart : ℕ → List ℕ → Type 0
Apart begin_pos w = (begin_pos ≡ 0) ⊎ (length w ≤ begin_pos)

-- One receive, or several: the frames that have become whole are handed on, and a piece is kept.
pub record Received (s : WsRecvIo) (fs : List DataFrame) (x : List ℕ) (r : Option (Next × WsRecvIo))
    : Type 0 where
  pub after : WsRecvIo
  pub result : r ≡ some (recv, after)
  pub messages : after.io.messages ≡ s.io.messages ++ told_by_all fs
  pub pongs : after.pongs ≡ s.pongs + pings_in_all fs
  pub kept : pending after.io ≡ x
  pub valid : IsValid after.io

Starts-Within : (w : List ℕ) (fs : List DataFrame) → Starts w fs → Within (length w) fs
Starts-Within w [] h = tt
Starts-Within w (f ∷ fs) (y, e, more) = omega (arith, ap length e, length-append w y)

recved_ws-Received :
    (bytes : ℕ) (s : WsRecvIo) (fs : List DataFrame) (x : List ℕ)
    → 0 < bytes
    → HandedOn s fs x (ws_completed bytes s)
    → (r : Received s fs x (recved_ws bytes s)) × (r.after.io.begin_pos
        ≡ s.io.begin_pos + length (frames_bytes fs))
unfolding recved_ws
recved_ws-Received bytes s fs x p h = (
  record {
    after = h.after;
    result = rw (ne→== bytes 0 (omega arith), h.result) refl;
    messages = h.messages;
    pongs = h.pongs;
    kept = h.kept;
    valid = h.valid;
  },
  h.place,
)

receive_ws-apart :
    (stale : ℕ) (chunk : List ℕ) (s : WsRecvIo)
    → overlaps s.io ≡ false
    → let (_, at, t) = arrange stale s.io in
      receive_ws stale chunk s
      ≡ recved_ws (length chunk) (record s { io = record t { buf = blit t.buf at chunk } })
unfolding receive_ws get_wsa_buf prepare_buffer
receive_ws-apart stale chunk s apart = rw (receive_ws, get_wsa_buf, prepare_buffer, apart) refl

-- A receive behind the piece `w`.
module _ (stale : ℕ) (chunk w x : List ℕ) (fs : List DataFrame) (s : WsRecvIo) (a : AllFrames fs)
    (p : IsPiece x) (v : IsValid s.io) (held : pending s.io ≡ w) (apart : overlaps s.io ≡ false)
    (starts : Starts w fs) (some_bytes : 0 < length chunk)
    (fits : length w + length chunk ≤ max_size) (comes : w ++ chunk ≡ frames_bytes fs ++ x) where
  pub receive_ws-Received :
      (r : Received s fs x (receive_ws stale chunk s)) × (r.after.io.begin_pos
        ≡ length (frames_bytes fs))
  unfolding ws_completed
  receive_ws-Received =
      let t = (arrange stale s.io).2 in
      let q = prepare-Prepared stale s.io v in
      let size : length w ≡ t.end_pos - t.begin_pos =
        ap length (sym held ∙ sym q.same) ∙ length-pending t q.valid in
      let room : t.end_pos + length chunk ≤ t.size =
        omega (arith, size, q.front, q.valid.sized, fits) in
      let io = stored t chunk q.valid q.front room in
      let u : WsRecvIo = record s { io = io } in
      let inc : add32 (sub32 t.end_pos t.begin_pos) (length chunk)
          ≡ (t.end_pos - t.begin_pos) + length chunk =
        omega (arith, q.front, q.valid.sized, room) in
      let ready : Ready (length chunk) ((t.end_pos - t.begin_pos) + length chunk) u
          (frames_bytes fs ++ x) =
        record {
          valid = stored-IsValid t chunk q.valid q.front room;
          sum = refl;
          room = omega (arith, q.front, room);
          here =
              stored_stream t chunk q.valid q.front room
              ∙ ap (λ l. l ++ chunk) (q.same ∙ held)
              ∙ comes;
        } in
      let (r, place) = recved_ws-Received (length chunk) u fs x some_bytes (
        rw inc (
          loop-HandedOn fs _ _ _ u x a p ready
            (subst (λ n. Within n fs) size (Starts-Within w fs starts)) (omega arith))) in
      subst (λ o. (r : Received s fs x o) × (r.after.io.begin_pos ≡ length (frames_bytes fs)))
        (sym (receive_ws-apart stale chunk s apart))
        (rw q.behind (
          record {
            after = r.after;
            result = r.result;
            messages = r.messages ∙ ap (λ l. l ++ told_by_all fs) q.messages;
            pongs = r.pongs;
            kept = r.kept;
            valid = r.valid;
          },
          omega (arith, place, q.front),
        ))

-- Receives one after the other, from the pending bytes `w` at `_begin` to the pending bytes `x`, with the frames that
-- become whole. A piece that is kept lies behind the frames of its receive, and does not overlap with where
-- the next GetWsaBuf moves it. Given are `stale` of each, and a chunk of at least a byte that fits, behind which no length of a frame is cut.
pub data Arrives : ℕ → List ℕ → List (ℕ × List ℕ) → List DataFrame → List ℕ → Type 0 where
  all_arrived : {k : ℕ} {w : List ℕ} → Arrives k w [] [] w
  chunk_arrives :
      {k : ℕ} {w v x : List ℕ} {hs : List DataFrame} {cs : List (ℕ × List ℕ)} (stale : ℕ)
      (chunk : List ℕ) (gs fs : List DataFrame)
      → AllFrames gs
      → Apart k w
      → Starts w gs
      → IsPiece v
      → 0 < length chunk
      → length w + length chunk ≤ max_size
      → w ++ chunk ≡ frames_bytes gs ++ v
      → Arrives (length (frames_bytes gs)) v cs fs x
      → hs ≡ gs ++ fs
      → Arrives k w ((stale, chunk) ∷ cs) hs x

-- ===== src/Ws/Built.antt =====
-- A packet of HNetWsPacketEx: what its `_size` counts, and what operator< sends of it.
use network.Prelude.{ℕ, ◌≡◌, ◌≤◌, ◌+◌, some, List, [], ◌∷◌, ◌++◌, length, arith, u16_at}
use network.Buffer.{IsValid, buffer_size, offset, in_success, roll_back}
use network.Buffer.Invariant.{write_field-IsValid}
use network.Packet.{PacketEx, packet_in, packet_success, image}
use network.Packet.Size.{Build, ins, closes, build, write_field-grows}
use network.Ws.{ws_new_packet, data_size}
use network.Ws.Frame.{first_frame, first_frame-IsFrame, first_frame-some, ws_packet_check_bounds}

-- `_size` counts the contents of the buffer, and nothing else.
record IsBare (p : PacketEx) : Type 0 where
  buffer : IsValid p.buf
  counted : p.size ≡ p.buf.in_pos

packet_success-IsBare : (p : PacketEx) → IsBare p → IsBare (packet_success p).1
unfolding packet_success in_success roll_back
packet_success-IsBare p s = ground (arith, s.counted, s.buffer)

build-IsBare : (p : PacketEx) (cs : List Build) → IsBare p → IsBare (build p cs)
unfolding build packet_in
build-IsBare p [] s = s
build-IsBare p (ins v ∷ cs) s =
    let w = write_field-IsValid p.buf v s.buffer in
    build-IsBare (packet_in p v) cs (record {
      buffer = w;
      counted = omega (arith, write_field-grows p.buf v, s.counted, w.in_range);
    })
build-IsBare p (closes ∷ cs) s = build-IsBare (packet_success p).1 cs (packet_success-IsBare p s)

-- The memory behind the WsaSend: the header's bytes that the packet does not use, and the packet.
abbrev pub block : List ℕ → PacketEx → List ℕ
block spare p = spare ++ image p

-- Whatever is put into a packet made by the constructor of HNetWsPacketEx with 60000 bytes of
-- memory, and whenever Success is called, if it is sent then its `_size` is only what its buffer
-- holds, and the data of the frame ends 11 bytes before the end of the packet's type, counters and
-- contents.
pub ws_new_packet-build :
    (memory bytes : List ℕ) (type a b c d e f g h : ℕ) (cs : List Build)
    → length memory ≡ buffer_size
    → let p = build (ws_new_packet memory type) cs in
      first_frame (block (a ∷ b ∷ c ∷ d ∷ e ∷ f ∷ g ∷ h ∷ []) p) ≡ some bytes
      → (p.size ≡ p.buf.in_pos) × (data_size bytes + 11 ≡ 2 + offset + p.buf.in_pos)
unfolding ws_new_packet image
ws_new_packet-build memory bytes type a b c d e f g h cs m sends =
    let p = build (ws_new_packet memory type) cs in
    let s = build-IsBare (ws_new_packet memory type) cs (omega (arith, m)) in
    let m' = block (a ∷ b ∷ c ∷ d ∷ e ∷ f ∷ g ∷ h ∷ []) p in
    let word : u16_at m' 8 ≡ p.size = omega (arith, s.counted, s.buffer.in_range) in
    let inside : 8 + u16_at m' 8 ≤ length m' =
      omega (arith, word, s.counted, s.buffer.in_range, s.buffer.storage) in
    let (_, frame) = first_frame-IsFrame m' bytes inside sends in
    let (low, _, _) =
      ws_packet_check_bounds (u16_at m' 8) (u16_at m' 10) (first_frame-some m' bytes sends) in
    (s.counted, omega (arith, frame.data_sized, word, s.counted, low))

-- ===== src/Packet/Size.antt =====
-- The size that a packet announces, through In and Success.
use network.Prelude.{
  take, length, wrap16, ℕ, ◌≡◌, ◌≢◌, ◌≤◌, ◌<◌, ◌+◌, ◌%◌, ◌∙◌, refl, true, List, [], ◌∷◌, ◌++◌,
  length, arith, ◌↔◌,
}
use network.Buffer.{
  Buffer, buffer_size, IsValid, in_success, roll_back, put, in_sized, in_string, in_wstring,
  wide_bytes, offset,
}
use network.Buffer.Writing.{Field, raw, str, wstr, write_field}
use network.Buffer.Invariant.{write_field-IsValid}
use network.Packet.{
  PacketEx, Packet, new_packet, packet_in, packet_success, packet_ex_size, header_size, max_size,
  max_type, invalid_type, check, header, packet_type,
}

-- The announced size is that of the header, the buffer's counters and the bytes written.
pub record IsSound (p : PacketEx) : Type 0 where
  pub buffer : IsValid p.buf
  pub counted : p.size ≡ header_size + offset + p.buf.in_pos
  pub typed : p.type < 65536

put-grows :
    (b : Buffer) (bytes : List ℕ)
    → (put b bytes).1.in_pos % 65536 ≡ (b.in_pos + (put b bytes).0) % 65536
unfolding put
put-grows b _ = ground arith

in_sized-grows :
    (b : Buffer) (size : ℕ) (memory : List ℕ)
    → (in_sized b size memory).1.in_pos % 65536 ≡ (b.in_pos + (in_sized b size memory).0) % 65536
unfolding in_sized put
in_sized-grows b size memory = ground arith

-- What operator<< returns is how far `_in` has moved.
pub write_field-grows :
    (b : Buffer) (f : Field)
    → (write_field b f).1.in_pos % 65536 ≡ (b.in_pos + (write_field b f).0) % 65536
unfolding write_field in_string in_wstring
write_field-grows b (raw bytes) = put-grows b (take (wrap16 (length bytes)) bytes)
write_field-grows b (str s) = in_sized-grows b _ (s ++ 0 ∷ [])
write_field-grows b (wstr s) = in_sized-grows b _ (wide_bytes (s ++ 0 ∷ []))

packet_in-IsSound : (p : PacketEx) (v : Field) → IsSound p → IsSound (packet_in p v)
unfolding packet_in
packet_in-IsSound p v s =
    let w = write_field-IsValid p.buf v s.buffer in
    record {
      buffer = w;
      counted = omega (arith, write_field-grows p.buf v, s.counted, w.in_range);
      typed = s.typed;
    }

packet_success-IsSound : (p : PacketEx) → IsSound p → IsSound (packet_success p).1
unfolding packet_success in_success roll_back
packet_success-IsSound p s = ground (arith, s.counted, s.buffer)

-- A call that builds a packet.
pub data Build : Type 0 where
  ins : Field → Build
  closes : Build

unfoldable pub build : PacketEx → List Build → PacketEx
build p [] = p
build p (ins v ∷ cs) = build (packet_in p v) cs
build p (closes ∷ cs) = build (packet_success p).1 cs

build-IsSound : (p : PacketEx) (cs : List Build) → IsSound p → IsSound (build p cs)
unfolding build
build-IsSound p [] s = s
build-IsSound p (ins v ∷ cs) s = build-IsSound (packet_in p v) cs (packet_in-IsSound p v s)
build-IsSound p (closes ∷ cs) s = build-IsSound (packet_success p).1 cs (packet_success-IsSound p s)

new_packet-IsSound :
    (memory : List ℕ) (type : ℕ)
    → length memory ≡ buffer_size
    → type < 65536
    → IsSound (new_packet packet_ex_size memory type)
unfolding new_packet
new_packet-IsSound memory type h t = ground arith

-- For a packet made with a type below 65536 and 60000 bytes of memory, whatever is put into it and
-- whenever Success is called, the size that it announces is that of its header and of the buffer's
-- counters plus what the buffer holds, its type is a 16-bit word, and its buffer is valid.
pub new_packet-build-IsSound :
    (memory : List ℕ) (type : ℕ) (cs : List Build)
    → length memory ≡ buffer_size
    → type < 65536
    → IsSound (build (new_packet packet_ex_size memory type) cs)
new_packet-build-IsSound memory type cs h t =
    build-IsSound (new_packet packet_ex_size memory type) cs (new_packet-IsSound memory type h t)

type-build : (p : PacketEx) (cs : List Build) → (build p cs).type ≡ p.type
unfolding build packet_in packet_success
type-build p [] = refl
type-build p (ins v ∷ cs) = type-build (packet_in p v) cs
type-build p (closes ∷ cs) = type-build (packet_success p).1 cs ∙ ground arith

type-new_packet :
    (memory : List ℕ) (type : ℕ) → (new_packet packet_ex_size memory type).type ≡ packet_type type
unfolding new_packet
type-new_packet memory type = refl

-- The test of HNetPacket::Check.
pub check_bounds :
    (p : Packet)
    → (check p ≡ true) ↔ ((p.type ≢ invalid_type) × (header_size ≤ p.size) × (p.size ≤ max_size))
unfolding check
check_bounds p = ground arith

-- A packet made with a type below 65536 and 60000 bytes of memory, whatever is put into it and
-- whenever Success is called, passes Check exactly when the type is at most 65534 and its buffer
-- holds at most 32489 bytes.
pub check-build_iff :
    (memory : List ℕ) (type : ℕ) (cs : List Build)
    → length memory ≡ buffer_size
    → type < 65536
    → let p = build (new_packet packet_ex_size memory type) cs in
      (check (header p) ≡ true) ↔ ((type ≤ max_type) × (p.buf.in_pos ≤ 32489))
check-build_iff memory type cs h t =
    let p = build (new_packet packet_ex_size memory type) cs in
    let s = new_packet-build-IsSound memory type cs h t in
    let e : p.type ≡ packet_type type = type-build _ cs ∙ type-new_packet memory type in
    let c = check_bounds (header p) in
    (
      λ k. let (a, b, d) = c.0 k in (ground arith, omega (arith, s.counted)),
      λ (a, b). c.1 (ground arith, omega (arith, s.counted), omega (arith, s.counted)),
    )

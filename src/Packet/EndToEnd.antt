-- ===== src/Packet/EndToEnd.antt =====
-- The values that an application puts into a packet, at the other end of the connection.
use network.Prelude.{
  ℕ, ◌≡◌, ◌<◌, ◌∙◌, ap, refl, true, some, List, [], ◌∷◌, map, length, arith, append-nil, sym,
}
use network.Buffer.{IsValid, buffer_size}
use network.Buffer.Contents.{contents}
use network.Buffer.Writing.{Field}
use network.Buffer.RoundTrip.{
  write_all, encode_all, AllSmall, AllReadable, read_all, kind, payload, read_all-payload,
  write_all-Appended, write_all-success_iff,
}
use network.Packet.{PacketEx, new_packet, packet_ex_size, packet_in, to_send}
use network.Packet.Size.{ins, build, new_packet-build-IsSound}
use network.Packet.Wire.{transmit, transmit-contents}

pub buf-build :
    (p : PacketEx) (fs : List Field) → (build p (map ins fs)).buf ≡ (write_all p.buf fs).1
unfolding build packet_in write_all
buf-build p [] = refl
buf-build p (f ∷ fs) = buf-build (packet_in p f) fs

-- A packet is made with a type below 65536 and 60000 bytes of memory, values are put into it, of
-- which none is refused (objects are not empty and have fewer than 65536 bytes, narrow strings
-- have fewer than 65535 characters and wide ones at most 32765), and HNetPacket::operator< lets it
-- be sent: then what the receiver decrypts and casts to HNetPacketEx, whatever lies behind it,
-- gives the same values in order to a reader that asks for the same kinds.
pub transmit-read_all :
    (memory : List ℕ) (type : ℕ) (fs : List Field) (rest bytes : List ℕ)
    → length memory ≡ buffer_size
    → type < 65536
    → AllReadable fs
    → AllSmall fs
    → let p = build (new_packet packet_ex_size memory type) (map ins fs) in
      p.buf.success ≡ true
      → to_send p ≡ some bytes
      → (read_all (transmit bytes rest).buf (map kind fs)).0 ≡ map (λ f. some (payload f)) fs
unfolding new_packet
transmit-read_all memory type fs rest bytes m t r k ok e =
    let p = build (new_packet packet_ex_size memory type) (map ins fs) in
    let b = (new_packet packet_ex_size memory type).buf in
    let valid : IsValid b = omega arith in
    let same = buf-build (new_packet packet_ex_size memory type) fs in
    let fits = (write_all-success_iff b fs valid refl (omega arith) k).0 (rw (← same) ok) in
    let a = (write_all-Appended b fs valid refl (omega arith) fits).1 in
    let (_, _, c, readable) =
      transmit-contents p rest bytes (new_packet-build-IsSound memory type (map ins fs) m t) e in
    (read_all-payload (transmit bytes rest).buf fs [] readable r
      (c ∙ ap contents same ∙ a.contents_eq ∙ sym (append-nil (encode_all fs)))).0

-- ===== src/Packet/Tests.antt =====
-- The theorems on Network/HNetPacket.cpp and the way of a packet at concrete packets.
use network.Prelude.{
  ℕ, ◌≡◌, ◌≤◌, refl, true, false, some, ap, ◌∙◌, List, [], ◌∷◌, ◌++◌, map, arith, ◌↔◌, replicate,
  length-replicate, take,
}
use network.Buffer.{IsValid}
use network.Buffer.Writing.{Field, raw, str}
use network.Buffer.RoundTrip.{read_all, write_all, kind, write_all-Appended}
use network.Packet.{PacketEx, new_packet, packet_ex_size, check, header, to_send, image, max_type}
use network.Packet.Size.{Build, ins, closes, build, check-build_iff}
use network.Packet.Wire.{to_send-eq, transmit}
use network.Packet.Cipher.{encrypt, scramble, not_encrypt}
use network.Packet.EndToEnd.{transmit-read_all, buf-build}

abbrev memory : List ℕ
memory = replicate 60000 0

abbrev values : List Field
values = raw (7 ∷ 8 ∷ []) ∷ str (65 ∷ []) ∷ []

abbrev calls : List Build
calls = map ins values ++ closes ∷ []

abbrev five_bytes : List ℕ
five_bytes = 5 ∷ 0 ∷ 1 ∷ 0 ∷ 42 ∷ []

encrypt_five :
    (encrypt (record { bytes = five_bytes; encrypted = false })).bytes ≡ 5 ∷ 0 ∷ 1 ∷ 0 ∷ 196 ∷ []
unfolding encrypt scramble not_encrypt
encrypt_five = refl

check-build_iff_example :
    let p = build (new_packet packet_ex_size memory 12) calls in
    (check (header p) ≡ true) ↔ ((12 ≤ max_type) × (p.buf.in_pos ≤ 32489))
check-build_iff_example =
    check-build_iff memory 12 calls (length-replicate {A = ℕ} 60000 0) (omega arith)

-- A packet of type 12 with five bytes in its buffer.
abbrev five : PacketEx
five = record {
  size = 16;
  type = 12;
  buf = record { success = true; in_pos = 5; out_pos = 0; try_size = 0; buf = memory };
}

five_sent : to_send five ≡ some (take 16 (image five))
unfolding check
five_sent = to_send-eq five refl

abbrev packet : PacketEx
packet = build (new_packet packet_ex_size memory 12) (map ins values)

new_buffer-IsValid : IsValid (new_packet packet_ex_size memory 12).buf
unfolding new_packet
new_buffer-IsValid = omega (arith, length-replicate {A = ℕ} 60000 0)

packet_written :
    ((write_all (new_packet packet_ex_size memory 12).buf values).1.success ≡ true)
    × ((write_all (new_packet packet_ex_size memory 12).buf values).1.in_pos ≡ 6)
unfolding new_packet
packet_written =
    let a =
      (write_all-Appended (new_packet packet_ex_size memory 12).buf values new_buffer-IsValid refl
        (omega arith) (omega arith)).1 in
    (a.success, a.in_pos)

packet_success_lem : packet.buf.success ≡ true
packet_success_lem =
    ap (λ b. b.success) (buf-build (new_packet packet_ex_size memory 12) values) ∙ packet_written.0

packet_sent : to_send packet ≡ some (take packet.size (image packet))
packet_sent = to_send-eq packet (
    (check-build_iff memory 12 (map ins values) (length-replicate {A = ℕ} 60000 0) (omega arith)).1
      (
        omega arith,
        omega (
          arith,
          packet_written.1,
          ap (λ b. b.in_pos) (buf-build (new_packet packet_ex_size memory 12) values),
        ),
      ))

transmit-read_all_example :
    (read_all (transmit (take packet.size (image packet)) (1 ∷ 2 ∷ [])).buf (map kind values)).0
    ≡ some (7 ∷ 8 ∷ []) ∷ some (65 ∷ 0 ∷ []) ∷ []
transmit-read_all_example =
    transmit-read_all memory 12 values (1 ∷ 2 ∷ []) (take packet.size (image packet))
      (length-replicate {A = ℕ} 60000 0) (omega arith) (omega arith, (omega arith, tt))
      (omega arith, (tt, tt)) packet_success_lem packet_sent

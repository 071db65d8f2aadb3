-- ===== src/Ws.antt =====
-- HNetWsPacket in Network/HNetPacket.h and HNetPacket.cpp: WebSocket frames and the packets in them.
-- A frame is the bytes from its header on. `x & 0x7F` of a byte is `x % 128`, and `x & 0x80` is not
-- zero when `x / 128 % 2` is 1. The machine is little-endian, so ntohs and ntohll read big-endian.
use Prim.Native.Nat.{bit_xor}
use network.Prelude.{
  ℕ, zero, suc, ◌≡◌, ◌+◌, ◌-◌, ◌*◌, ◌/◌, ◌%◌, ◌^◌, Bool, true, false, not, ◌&&◌, ◌||◌, Option, none,
  some, List, [], ◌∷◌, ◌++◌, ltb, leb, ◌==◌, if◌then◌else◌, length, take, drop, blit, get_or,
  wrap16, sub16, add16, le16, u16_at,
}
use network.Buffer.{Buffer, buffer_size, offset}
use network.Packet.{PacketEx, max_size, invalid_type}
pub mod Client
pub mod Frame
pub mod Server
pub mod Built
mod Tests

-- The values of HNET_WS_HEADER_INFO.
abbrev pub mask_bytes : ℕ
mask_bytes = 4

abbrev pub payload_len_127 : ℕ
payload_len_127 = 32767

-- Header::MaxHeaderSize
abbrev pub max_header_size : ℕ
max_header_size = 10

abbrev pub be16 : ℕ → List ℕ
be16 n = n / 256 % 256 ∷ n % 256 ∷ []

abbrev pub be16_at : List ℕ → ℕ → ℕ
be16_at m i = get_or m i 0 * 256 + get_or m (i + 1) 0

abbrev pub be64_at : List ℕ → ℕ → ℕ
be64_at m i =
    ((be16_at m i * 65536 + be16_at m (i + 2)) * 65536 + be16_at m (i + 4)) * 65536
    + be16_at m (i + 6)

-- Header::Initialize: the bytes that it writes. What it does not write of an extended length is
-- not part of the header.
unfoldable pub ws_initialize : ℕ → List ℕ
ws_initialize data_size =
    if leb payload_len_127 data_size
    then 0x82 ∷ 127 ∷ 0 ∷ 0 ∷ 0 ∷ 0 ∷ 0 ∷ 0 ∷ be16 data_size
    else (if leb 126 data_size then 0x82 ∷ 126 ∷ be16 data_size else 0x82 ∷ data_size % 256 ∷ [])

abbrev pub len7 : List ℕ → ℕ
len7 m = get_or m 1 0 % 128

-- Header::IsMask
abbrev pub is_mask : List ℕ → Bool
is_mask m = ltb 0 (get_or m 1 0 / 128 % 2)

-- Header::IsExtend_126 and IsExtend_127: the bytes that extend the header.
abbrev pub extend_bytes : List ℕ → ℕ
extend_bytes m = if len7 m == 126 then 2 else (if len7 m == 127 then 8 else 0)

-- Header::DataSize. The 64-bit length is signed there: one from 2 ^ 63 on is negative.
unfoldable pub data_size : List ℕ → ℕ
data_size m =
    if len7 m == 126
    then be16_at m 2
    else (if len7 m == 127
        then (let ll = be64_at m 2 in if ltb 4294967295 ll && ltb ll (2 ^ 63) then 0 else wrap16 ll)
        else len7 m)

-- Header::Size
unfoldable pub ws_size : List ℕ → ℕ
ws_size m = wrap16 (2 + extend_bytes m + (if is_mask m then mask_bytes else 0) + data_size m)

-- Header::Check
unfoldable pub ws_check : List ℕ → Bool
ws_check m = if ltb (ws_size m) 2 then false else not (ltb max_size (ws_size m))

-- Header::Opcode
abbrev pub opcode : List ℕ → ℕ
opcode m = get_or m 0 0 % 16

-- `data[i] ^= maskKey[i % MASK_BYTES]`, `n` times from index `i` on.
unfoldable pub unmask : List ℕ → ℕ → ℕ → List ℕ → List ℕ
unmask key i zero xs = xs
unmask key i (suc n) [] = []
unmask key i (suc n) (x ∷ xs) = bit_xor x (get_or key (i % 4) 0) ∷ unmask key (i + 1) n xs

-- Header::Decrypt: where the data is, and the memory.
unfoldable pub ws_decrypt : List ℕ → ℕ × List ℕ
ws_decrypt m =
    let at = 2 + extend_bytes m in
    if is_mask m
    then (
      at + mask_bytes,
      take (at + mask_bytes) m
          ++ unmask (take mask_bytes (drop at m)) 0 (data_size m) (drop (at + mask_bytes) m),
    )
    else (at, m)

-- Header::ToPacket: where the packet is, and the memory with its size written.
unfoldable pub to_packet : List ℕ → ℕ × List ℕ
to_packet m = let (at, m') = ws_decrypt m in (at - 2, blit m' (at - 2) (le16 (ws_size m')))

-- HNetWsPacket::Check
unfoldable pub ws_packet_check : ℕ → ℕ → Bool
ws_packet_check size type =
    if ltb size 4 then false else (if ltb max_size size then false else not (type == invalid_type))

-- A WsaSend of a packet: `block` is the memory behind it, eight spare bytes and then the packet with its size and
-- type; `buf` is NULL or an offset into it.
pub record WsSend : Type 0 where
  pub block : List ℕ
  pub buf : Option ℕ
  pub len : ℕ

-- What WSASend is given.
abbrev pub sent_bytes : WsSend → List ℕ
sent_bytes w = elim w.buf [ none ↦ [] | some at ↦ take w.len (drop at w.block) ]

-- How long the header for so many bytes of data is.
abbrev pub head_size : ℕ → ℕ
head_size n = 2 + (if leb payload_len_127 n then 8 else (if leb 126 n then 2 else 0))

-- HNetWsPacket::operator<, where none is NULL. The header overwrites the packet's `_size`, which Check reads the next time.
unfoldable pub ws_to_send : WsSend → Option WsSend
ws_to_send w =
    let data_lenth = sub16 (u16_at w.block 8) 2 in
    let at = max_header_size - head_size data_lenth in
    if ws_packet_check (u16_at w.block 8) (u16_at w.block 10)
    then (elim w.buf [
      | some old ↦ some w
      | none ↦ some (record {
        block = blit w.block at (ws_initialize data_lenth);
        buf = some at;
        len = head_size data_lenth + data_lenth;
      })
    ])
    else none

-- sizeof(HNetWsPacketEx).
abbrev pub ws_packet_ex_size : ℕ
ws_packet_ex_size = 4 + (offset + buffer_size)

-- HNetWsPacketEx(USHORT type): the constructor of HNetWsPacket sets `_size` to 0, whatever operator
-- new has stored there, before the size is compared.
unfoldable pub ws_new_packet : List ℕ → ℕ → PacketEx
ws_new_packet memory type =
    let size : ℕ = 0 in
    record {
      size = if size == ws_packet_ex_size then wrap16 (ws_packet_ex_size + offset) else size;
      type = type;
      buf = record { success = true; in_pos = 0; out_pos = 0; try_size = 0; buf = memory };
    }

-- ===== src/Packet.antt =====
-- Network/HNetPacket.h and HNetPacket.cpp: packets, their size accounting and what goes on the wire.
-- Allocation and the message box of a wrong constructor call are not modelled.
use network.Prelude.{
  ℕ, ◌≡◌, ◌+◌, ◌-◌, ◌*◌, Bool, true, false, not, ◌||◌, Option, none, some, List, [], ◌∷◌, ◌++◌, ltb,
  ◌==◌, if◌then◌else◌, length, take, drop, blit, get_or, wrap16, add16, sub16, le16, u16_at,
}
use network.Buffer.{Buffer, buffer_size, offset, in_success, out_empty}
use network.Buffer.Writing.{Field, write_field}
pub mod Lifetime
pub mod Size
pub mod Cipher
pub mod Wire
pub mod EndToEnd
pub mod Stream
mod Tests

-- HNetPacket::MAX_SIZE, MAX_TYPE and INVALID_TYPE.
abbrev pub max_size : ℕ
max_size = 32500

abbrev pub max_type : ℕ
max_type = 65534

abbrev pub invalid_type : ℕ
invalid_type = 65535

-- sizeof(HNetPacket) and sizeof(HNetPacketEx), packed.
abbrev pub header_size : ℕ
header_size = 4

abbrev pub packet_ex_size : ℕ
packet_ex_size = header_size + offset + buffer_size

pub record Packet : Type 0 where
  pub size : ℕ
  pub type : ℕ

-- HNetPacket(USHORT type)
abbrev pub packet_type : ℕ → ℕ
packet_type type = if ltb max_type type then invalid_type else type

-- HNetPacket::Check
unfoldable pub check : Packet → Bool
check p = not (p.type == invalid_type || ltb p.size header_size || ltb max_size p.size)

-- HNetPacket::Lenth
abbrev pub lenth : Packet → ℕ
lenth p = sub16 p.size header_size

-- HNetPacketEx
pub record PacketEx : Type 0 where
  pub size : ℕ
  pub type : ℕ
  pub buf : Buffer

abbrev pub header : PacketEx → Packet
header p = record { size = p.size; type = p.type }

-- operator new stores `size`, and the constructor replaces it when it is that of HNetPacketEx.
-- `memory` is what the allocation holds where `_buf._buf` lies.
unfoldable pub new_packet : ℕ → List ℕ → ℕ → PacketEx
new_packet size memory type = record {
  size = if wrap16 size == packet_ex_size then wrap16 (header_size + offset) else wrap16 size;
  type = packet_type type;
  buf = record { success = true; in_pos = 0; out_pos = 0; try_size = 0; buf = memory };
}

-- HNetPacketEx::In
unfoldable pub packet_in : PacketEx → Field → PacketEx
packet_in p v = let (n, b) = write_field p.buf v in record p { size = add16 p.size n; buf = b }

-- HNetPacketEx::Success
unfoldable pub packet_success : PacketEx → Bool × PacketEx
packet_success p =
    let (done, rollback_size, b) = in_success p.buf in
    if done
    then (true, record p { buf = b })
    else (false, record p { size = sub16 p.size rollback_size; buf = b })

-- HNetPacketEx::Empty
pub packet_empty : PacketEx → Bool
packet_empty p = out_empty p.buf

-- The bytes of the object in memory, as the packed layout puts them.
abbrev pub bool_byte : Bool → ℕ
bool_byte true = 1
bool_byte false = 0

unfoldable pub image : PacketEx → List ℕ
image p =
    le16 p.size
    ++ (le16 p.type
        ++ (bool_byte p.buf.success ∷ []
            ++ (le16 p.buf.in_pos ++ (le16 p.buf.out_pos ++ (le16 p.buf.try_size ++ p.buf.buf)))))

-- The object that lies at an address, as the receiver's cast reads it.
unfoldable pub view_ex : List ℕ → PacketEx
view_ex memory = record {
  size = u16_at memory 0;
  type = u16_at memory 2;
  buf = record {
    success = not (get_or memory 4 0 == 0);
    in_pos = u16_at memory 5;
    out_pos = u16_at memory 7;
    try_size = u16_at memory 9;
    buf = drop 11 memory;
  };
}

abbrev pub view : List ℕ → Packet
view memory = record { size = u16_at memory 0; type = u16_at memory 2 }

-- operator<: what is handed to Send, the first `len` bytes at `buf`; nothing if Check fails.
unfoldable pub to_send : PacketEx → Option (List ℕ)
to_send p = if check (header p) then some (take p.size (image p)) else none

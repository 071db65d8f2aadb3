-- ===== src/Packet/Lifetime.antt =====
-- The memory of a WsaSend: Initialize, Reference, Release and the destructor in Network/HNetPacket.cpp, as a RefPacket
-- (Network/HNetPacket.h) and those who hold a reference call them. A long is its pattern of 32 bits.
use network.Prelude.{
  ℕ, ◌≡◌, ◌≤◌, ◌<◌, ◌+◌, ◌-◌, ◌%◌, Bool, true, false, ◌==◌, if◌then◌else◌, sub32, add32,
}
pub mod Freed
mod Tests

-- HNET_PACKET_DEFAULT_REFERENCE
abbrev pub default_reference : ℕ
default_reference = 10000000

-- `_refCount`, `_count`, and how often the memory was given to Dealloc.
pub record Block : Type 0 where
  pub ref_count : ℕ
  pub count : ℕ
  pub freed : ℕ

-- WsaSend::Initialize
abbrev pub new_block : Block
new_block = record { ref_count = default_reference; count = 0; freed = 0 }

-- WsaSend::Reference
unfoldable pub add_reference : Block → Block
add_reference b = record b { count = add32 b.count 1 }

-- `if (0 == ...) HAPI::Dealloc(this)`, with the new `_refCount`.
abbrev pub free_at_zero : ℕ → Block → Block
free_at_zero n b = record b { ref_count = n; freed = if n == 0 then b.freed + 1 else b.freed }

-- WsaSend::Release
unfoldable pub drop_reference : Block → Block
drop_reference b = free_at_zero (sub32 b.ref_count 1) b

-- The destructor: it adds `_count` less the default to `_refCount`.
unfoldable pub destroy : Block → Block
destroy b = free_at_zero ((b.ref_count + b.count + (4294967296 - default_reference)) % 4294967296) b

-- A block, whether its RefPacket is still there, and how many references are held.
pub record Use : Type 0 where
  pub block : Block
  pub owned : Bool
  pub held : ℕ

-- References are taken while the RefPacket is there, fewer than the default in all; one that is held is released
-- by any thread at any time; the RefPacket ends once.
pub data Step (u : Use) : Use → Type 0 where
  refers :
      u.owned ≡ true
      → u.block.count + 1 < default_reference
      → Step u (record u { block = add_reference u.block; held = u.held + 1 })
  releases : 0 < u.held → Step u (record u { block = drop_reference u.block; held = u.held - 1 })
  destroys : u.owned ≡ true → Step u (record u { block = destroy u.block; owned = false })

pub data Reach : Use → Type 0 where
  made : Reach (record { block = new_block; owned = true; held = 0 })
  then_step : {u v : Use} → Reach u → Step u v → Reach v

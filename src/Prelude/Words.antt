-- ===== src/Prelude/Words.antt =====
-- Machine words as native numbers: unsigned arithmetic of 16 and 32 bits, and byte order.
use Prim.Native.Nat.{ℕ, ◌+◌, ◌-◌, ◌*◌, ◌/◌, ◌%◌}
use mathlib.Core.List.{List, [], ◌∷◌}
use network.Prelude.Lists.{get_or}

-- Conversion to USHORT, and USHORT addition and subtraction.
abbrev pub wrap16 : ℕ → ℕ
wrap16 a = a % 65536

abbrev pub add16 : ℕ → ℕ → ℕ
add16 a b = (a + b) % 65536

abbrev pub sub16 : ℕ → ℕ → ℕ
sub16 a b = (a + 65536 - b) % 65536

-- DWORD addition and subtraction.
abbrev pub add32 : ℕ → ℕ → ℕ
add32 a b = (a + b) % 4294967296

abbrev pub sub32 : ℕ → ℕ → ℕ
sub32 a b = (a + 4294967296 - b) % 4294967296

-- The two bytes of a USHORT in memory, the low one first.
abbrev pub le16 : ℕ → List ℕ
le16 n = n % 256 ∷ n / 256 % 256 ∷ []

-- The USHORT at an address.
abbrev pub u16_at : List ℕ → ℕ → ℕ
u16_at bs i = get_or bs i 0 + 256 * get_or bs (i + 1) 0

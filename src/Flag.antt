-- ===== src/Flag.antt =====
-- Network/Common/Flag.cpp: a set of flags below a count. A DWORD flag is not negative. `none`: a read or a write
-- outside the array.
use network.Prelude.{
  ℕ, zero, suc, ◌≡◌, Bool, true, false, List, [], ◌∷◌, ltb, if◌then◌else◌, get_elem?, set,
  replicate, length, Option, some, none,
}
pub mod Members
mod Tests

pub record Flag : Type 0 where
  pub max_count : ℕ
  pub flag : List Bool

-- Flag(int count), where the memory is given.
unfoldable pub new_flag : ℕ → Flag
new_flag count = record { max_count = count; flag = replicate count false }

-- `_flag[i] = b`
unfoldable pub write_flag : ℕ → Bool → Flag → Option Flag
write_flag i b f = if ltb i (length f.flag) then some (record f { flag = set f.flag i b }) else none

-- Enable
unfoldable pub enable : ℕ → Flag → Option Flag
enable i f = if ltb i f.max_count then write_flag i true f else some f

-- Disable
unfoldable pub disable : ℕ → Flag → Option Flag
disable i f = if ltb i f.max_count then write_flag i false f else some f

-- IsFlag
unfoldable pub is_flag : ℕ → Flag → Option Bool
is_flag i f = if ltb i f.max_count then get_elem? f.flag i else some false

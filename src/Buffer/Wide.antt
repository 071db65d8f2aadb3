-- ===== src/Buffer/Wide.antt =====
-- Wide strings of 32766 characters and more, whose size in bytes does not fit a USHORT.
use network.Prelude.{
  ℕ, ◌≡◌, ◌≤◌, ◌+◌, ◌-◌, ◌*◌, ◌%◌, true, List, [], ◌∷◌, ◌++◌, length, arith, min, wrap16,
}
use network.Buffer.{Buffer, buffer_size, in_wstring, in_sized, put, room, wide_bytes}

in_sized_wrapped :
    (b : Buffer) (size : ℕ) (memory : List ℕ)
    → b.success ≡ true
    → b.in_pos + 2 ≤ buffer_size
    → b.in_pos + (2 + size) % 65536 ≤ buffer_size
    → let (n, b') = in_sized b size memory in
      (n ≡ (2 + size) % 65536) × (b'.success ≡ true) × (b'.in_pos ≡ (b.in_pos + 2 + size) % 65536)
unfolding in_sized put
in_sized_wrapped b size memory s h k = ground arith

-- A wide string of 32766 characters, in a buffer that has not failed and has room for as many
-- bytes as that, is accepted: 0 is returned, and `_in` is where it was.
pub wide_overrun :
    (b : Buffer) (s : List ℕ)
    → b.success ≡ true
    → length s ≡ 32766
    → b.in_pos + length s ≤ buffer_size
    → let (n, b') = in_wstring b s in (n ≡ 0) × (b'.success ≡ true) × (b'.in_pos ≡ b.in_pos)
unfolding in_wstring
wide_overrun b s t l h =
    let e : wrap16 ((min (length s) (room b) + 1) * 2) ≡ 65534 = omega arith in
    rw e (
      let (n, r, i) =
        in_sized_wrapped b 65534 (wide_bytes (s ++ 0 ∷ [])) t (omega arith) (omega arith) in
      (n, r, omega (arith, i)))

-- A wide string of 32767 characters or more, in a buffer that has not failed and has room for as
-- many bytes as it has characters and for its encoding less 65536 bytes, is accepted, 65536 bytes
-- of its encoding are left out, and `_in` moves by what is returned.
pub wide_cut :
    (b : Buffer) (s : List ℕ)
    → b.success ≡ true
    → 32767 ≤ length s
    → b.in_pos + length s ≤ buffer_size
    → b.in_pos + 2 + 2 * (length s + 1) ≤ buffer_size + 65536
    → let (n, b') = in_wstring b s in
      (n + 65536 ≡ 2 + 2 * (length s + 1)) × (b'.success ≡ true) × (b'.in_pos ≡ b.in_pos + n)
unfolding in_wstring
wide_cut b s t l h k =
    let e : wrap16 ((min (length s) (room b) + 1) * 2) ≡ 2 * (length s + 1) - 65536 = omega arith in
    rw e (
      let (n, r, i) =
        in_sized_wrapped b (2 * (length s + 1) - 65536) (wide_bytes (s ++ 0 ∷ [])) t (omega arith)
          (omega arith) in
      (omega (arith, n), r, omega (arith, i, n)))

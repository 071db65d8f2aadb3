-- ===== src/Buffer.antt =====
-- Network/Common/Buffer.cpp and Buffer.h: the serialisation buffer of a packet.
-- A byte is a number below 256, a narrow or wide character a number, and a string the list of its
-- characters before the terminator. `_in`, `_out` and `_trySize` are USHORTs, their wrap written out.
use network.Prelude.{
  ℕ, ◌≡◌, ◌≤◌, ◌<◌, ◌+◌, ◌-◌, ◌*◌, ◌/◌, ◌%◌, ◌^◌, min, Bool, true, false, not, Option, none, some,
  List, [], ◌∷◌, ◌++◌, ltb, leb, ◌==◌, if◌then◌else◌, length, take, drop, blit, replicate, wrap16,
  add16, sub16, le16, u16_at,
}
pub mod Contents
pub mod Writing
pub mod Reading
pub mod Strings
pub mod RoundTrip
pub mod Rollback
pub mod Invariant
pub mod Wide
mod Tests

-- BUFFER_SIZE
abbrev pub buffer_size : ℕ
buffer_size = 60000

pub record Buffer : Type 0 where
  pub success : Bool
  pub in_pos : ℕ
  pub out_pos : ℕ
  pub try_size : ℕ
  pub buf : List ℕ

-- Clear leaves the bytes of `_buf` as they are.
pub clear : Buffer → Buffer
clear b = record b { success = true; in_pos = 0; out_pos = 0; try_size = 0 }

-- sizeof(*this) - sizeof(_buf): a bool and three USHORTs, packed.
abbrev pub offset : ℕ
offset = wrap16 (1 + 2 + 2 + 2 + buffer_size - buffer_size)

pub out_empty : Buffer → Bool
out_empty b = leb b.in_pos b.out_pos

-- _RollBack returns how much the packet has to shrink.
unfoldable pub roll_back : Buffer → ℕ × Buffer
roll_back b =
    let in' = sub16 b.in_pos b.try_size in
    if ltb buffer_size in'
    then (add16 b.try_size in', record b { in_pos = 0; try_size = 0 })
    else (b.try_size, record b { in_pos = in'; try_size = 0 })

-- InSuccess: the answer, the value of `rollbackSize` (0 as its callers set it), and the buffer.
unfoldable pub in_success : Buffer → Bool × ℕ × Buffer
in_success b =
    if b.success
    then (true, 0, record b { try_size = 0 })
    else (let (n, b') = roll_back b in (false, n, record b' { success = true }))

-- operator=: the target, and the source that InSuccess may change.
pub assign : Buffer → Buffer → Buffer × Buffer
assign target source =
    let (done, _, source') = in_success source in
    if done
    then (
      record target {
        success = source'.success;
        in_pos = source'.in_pos;
        out_pos = source'.out_pos;
        try_size = 0;
        buf = blit target.buf 0 (take source'.in_pos source'.buf);
      },
      source',
    )
    else (target, source')

abbrev pub refuse : Buffer → Buffer
refuse b = record b { success = false }

-- _In: the bytes at `p`, `size` of them.
unfoldable pub put : Buffer → List ℕ → ℕ × Buffer
put b bytes =
    if not b.success
    then (0, b)
    else (if ltb buffer_size (b.in_pos + length bytes) then (0, refuse b) else (
      length bytes,
      record b {
        buf = blit b.buf b.in_pos bytes;
        in_pos = add16 b.in_pos (length bytes);
        try_size = add16 b.try_size (length bytes);
      },
    ))

-- The body that both overloads of _InString share: `memory` is what lies at `&string`.
unfoldable pub in_sized : Buffer → ℕ → List ℕ → ℕ × Buffer
in_sized b size memory =
    if not b.success
    then (0, b)
    else (let total = wrap16 (2 + size) in
        if ltb buffer_size (b.in_pos + total)
        then (0, refuse b)
        else (let (n, b') = put b (le16 size) in
            if n == 0 then (0, refuse b') else (
              total,
              record b' {
                buf = blit b'.buf b'.in_pos (take size memory);
                in_pos = add16 b'.in_pos size;
                try_size = add16 b'.try_size total;
              },
            )))

-- BUFFER_SIZE - _in, as a size_t.
abbrev pub room : Buffer → ℕ
room b = (2 ^ 64 + buffer_size - b.in_pos) % 2 ^ 64

-- strnlen_s and wcsnlen_s
abbrev pub strnlen : List ℕ → ℕ → ℕ
strnlen s n = min (length s) n

-- In(const char*), operator<<(const char*): strnlen_s, then _InString.
unfoldable pub in_string : Buffer → List ℕ → ℕ × Buffer
in_string b s = in_sized b (wrap16 ((strnlen s (room b) + 1) * 1)) (s ++ 0 ∷ [])

-- A wchar_t is two bytes on Windows.
abbrev pub wide_bytes : List ℕ → List ℕ
wide_bytes [] = []
wide_bytes (c ∷ s) = c % 256 ∷ c / 256 % 256 ∷ wide_bytes s

-- In(const wchar_t*), operator<<(const wchar_t*)
unfoldable pub in_wstring : Buffer → List ℕ → ℕ × Buffer
in_wstring b s = in_sized b (wrap16 ((strnlen s (room b) + 1) * 2)) (wide_bytes (s ++ 0 ∷ []))

-- _Out: what is copied to `p`.
unfoldable pub get : Buffer → ℕ → Option (List ℕ) × Buffer
get b size =
    if out_empty b
    then (none, b)
    else (if ltb b.in_pos (b.out_pos + size)
        then (none, b)
        else (some (take size (drop b.out_pos b.buf)), record b { out_pos = add16 b.out_pos size }))

abbrev pub lose : Buffer → Buffer
lose b = record b { success = false; in_pos = 0; out_pos = 0; try_size = 0 }

-- _OutString from `size` on, for a character of `w` bytes. With count 0 the caller gets a pointer
-- into the buffer, where the terminator is written; otherwise `count` characters are its array.
unfoldable pub out_body : ℕ → ℕ → ℕ → Buffer → Option (List ℕ) × Buffer
out_body w size count b =
    if size == 0
    then (none, lose b)
    else (let lenth = size / w in
        if lenth == 0
        then (none, lose b)
        else (if ltb b.in_pos (b.out_pos + size)
            then (none, lose b)
            else (if count == 0
                then (let buf' = blit b.buf (b.out_pos + (lenth - 1) * w) (replicate w 0) in
                    (
                      some (take (lenth * w) (drop b.out_pos buf')),
                      record b { buf = buf'; out_pos = add16 b.out_pos size },
                    ))
                else (let copy_size = (if ltb count lenth then count * w else size) in
                    let lenth' = (if ltb count lenth then count else lenth) in
                    (
                      some (
                          blit (take copy_size (drop b.out_pos b.buf)) ((lenth' - 1) * w)
                            (replicate w 0)),
                      record b { out_pos = add16 b.out_pos size },
                    )))))

-- _OutString, for a char (w = 1) and a wchar_t (w = 2).
unfoldable pub out_string : ℕ → Buffer → ℕ → Option (List ℕ) × Buffer
out_string w b count =
    let (got, b') = get b 2 in
    elim got [ none ↦ (none, lose b') | some bytes ↦ out_body w (u16_at bytes 0) count b' ]

-- The state that the operations keep. `_out` may pass `_in` after a roll back.
pub record IsValid (b : Buffer) : Type 0 where
  pub storage : length b.buf ≡ buffer_size
  pub in_range : b.in_pos ≤ buffer_size
  pub out_range : b.out_pos ≤ buffer_size
  pub try_range : b.try_size < 65536

-- What reading needs: a received packet lies in memory that ends before 60000 bytes.
pub record IsReadable (b : Buffer) : Type 0 where
  pub storage : b.in_pos ≤ length b.buf
  pub in_range : b.in_pos ≤ buffer_size
  pub out_range : b.out_pos ≤ buffer_size
  pub try_range : b.try_size < 65536

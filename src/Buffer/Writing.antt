-- ===== src/Buffer/Writing.antt =====
-- _In and _InString write behind the contents, all or nothing.
use network.Prelude.{
  ℕ, ◌≡◌, ◌≤◌, append_assoc, min, ◌<◌, ◌+◌, ◌*◌, ◌∙◌, ap, refl, true, false, List, [], ◌∷◌, ◌++◌,
  length, take, blit, arith, length-blit, length-append, take-all, add16, wrap16, le16,
}
use network.Buffer.{
  Buffer, buffer_size, IsValid, put, in_sized, in_string, in_wstring, wide_bytes, refuse, room,
}
use network.Buffer.Contents.{contents, Appended, drop-take-blit}

pub put_fits :
    (b : Buffer) (bytes : List ℕ)
    → b.success ≡ true
    → b.in_pos + length bytes ≤ buffer_size
    → put b bytes ≡ (
      length bytes,
      record b {
        buf = blit b.buf b.in_pos bytes;
        in_pos = b.in_pos + length bytes;
        try_size = add16 b.try_size (length bytes);
      },
    )
unfolding put
put_fits b bytes s h = ground arith

-- Where there is room, `_In` appends its bytes and returns their number.
pub put-Appended :
    (b : Buffer) (bytes : List ℕ)
    → IsValid b
    → b.success ≡ true
    → b.out_pos ≤ b.in_pos
    → b.in_pos + length bytes ≤ buffer_size
    → ((put b bytes).0 ≡ length bytes) × Appended b bytes (put b bytes).1
put-Appended b bytes v s o h = rw (put_fits b bytes s h) (
  refl,
  record {
    success = s;
    in_pos = refl;
    out_pos = refl;
    contents_eq =
        drop-take-blit b.buf b.out_pos b.in_pos (b.in_pos + length bytes) bytes refl
          (omega (arith, v.storage)) o;
    valid = record {
      storage = length-blit b.buf b.in_pos bytes ∙ v.storage;
      in_range = h;
      out_range = v.out_range;
      try_range = omega arith;
    };
  },
)

-- A string that fits: its length, then its first `size` bytes.
pub in_sized_fits :
    (b : Buffer) (size : ℕ) (memory : List ℕ)
    → b.success ≡ true
    → b.in_pos + (2 + size) ≤ buffer_size
    → in_sized b size memory ≡ (
      2 + size,
      record b {
        buf = blit (blit b.buf b.in_pos (le16 size)) (b.in_pos + 2) (take size memory);
        in_pos = b.in_pos + 2 + size;
        try_size = add16 (add16 b.try_size 2) (2 + size);
      },
    )
unfolding in_sized put
in_sized_fits b size memory s h = ground arith

pub in_sized-Appended :
    (b : Buffer) (memory : List ℕ)
    → IsValid b
    → b.success ≡ true
    → b.out_pos ≤ b.in_pos
    → b.in_pos + (2 + length memory) ≤ buffer_size
    → let size = length memory in
      let (n, b') = in_sized b size memory in
      (n ≡ length (le16 size ++ memory)) × Appended b (le16 size ++ memory) b'
in_sized-Appended b memory v s o h =
    rw (in_sized_fits b (length memory) memory s h, take-all (length memory) memory (omega arith))
      (
        omega arith,
        record {
          success = s;
          in_pos = omega arith;
          out_pos = refl;
          contents_eq =
              drop-take-blit (blit b.buf b.in_pos (le16 (length memory))) b.out_pos (b.in_pos + 2)
                (b.in_pos + 2 + length memory) memory refl
                (omega (arith, v.storage, length-blit b.buf b.in_pos (le16 (length memory))))
                (omega arith)
              ∙ ap (λ c. c ++ memory)
                  (drop-take-blit b.buf b.out_pos b.in_pos (b.in_pos + 2) (le16 (length memory))
                    refl (omega (arith, v.storage)) o)
              ∙ append_assoc (contents b) (le16 (length memory)) memory;
          valid = record {
            storage =
                length-blit (blit b.buf b.in_pos (le16 (length memory))) (b.in_pos + 2) memory
                ∙ length-blit b.buf b.in_pos (le16 (length memory))
                ∙ v.storage;
            in_range = omega arith;
            out_range = v.out_range;
            try_range = omega arith;
          };
        },
      )

pub length-wide_bytes : (s : List ℕ) → length (wide_bytes s) ≡ length s * 2
length-wide_bytes [] = refl
length-wide_bytes (c ∷ s) = omega (arith, length-wide_bytes s)

-- A value given to operator<<: an object's bytes, as many as `sizeof` says, a narrow string, or a wide string.
pub data Field : Type 0 where
  raw : List ℕ → Field
  str : List ℕ → Field
  wstr : List ℕ → Field

-- operator<< and In; the size of an object is converted to a USHORT.
unfoldable pub write_field : Buffer → Field → ℕ × Buffer
write_field b (raw bytes) = put b (take (wrap16 (length bytes)) bytes)
write_field b (str s) = in_string b s
write_field b (wstr s) = in_wstring b s

-- The format: an object's bytes as they are, a string behind its length in bytes.
abbrev pub encode : Field → List ℕ
encode (raw bytes) = bytes
encode (str s) = le16 (length (s ++ 0 ∷ [])) ++ (s ++ 0 ∷ [])
encode (wstr s) = le16 (length (wide_bytes (s ++ 0 ∷ []))) ++ wide_bytes (s ++ 0 ∷ [])

-- An object of 65536 bytes or more is cut to its size modulo 65536, and a wide string of 32766 characters or
-- more is not measured right: see Buffer/Wide.
abbrev pub IsSmall : Field → Type 0
IsSmall (raw bytes) = length bytes < 65536
IsSmall (str s) = Unit {0}
IsSmall (wstr s) = length s ≤ 32765

take-wrap16 : (bytes : List ℕ) → length bytes < 65536 → take (wrap16 (length bytes)) bytes ≡ bytes
take-wrap16 bytes h = take-all (wrap16 (length bytes)) bytes (omega arith)

-- An object of less than 65536 bytes goes in as it is.
pub write_field_raw :
    (b : Buffer) (bytes : List ℕ) → length bytes < 65536 → write_field b (raw bytes) ≡ put b bytes
unfolding write_field
write_field_raw b bytes h = ap (put b) (take-wrap16 bytes h)

-- Where a value's encoding fits, operator<< appends it and returns its length.
pub write_field-Appended :
    (b : Buffer) (f : Field)
    → IsValid b
    → b.success ≡ true
    → b.out_pos ≤ b.in_pos
    → b.in_pos + length (encode f) ≤ buffer_size
    → ((write_field b f).0 ≡ length (encode f)) × Appended b (encode f) (write_field b f).1
unfolding write_field in_string in_wstring
write_field-Appended b (raw bytes) v s o h =
    rw (take-wrap16 bytes (omega arith)) (put-Appended b bytes v s o h)
write_field-Appended b (str t) v s o h =
    let e : wrap16 ((min (length t) (room b) + 1) * 1) ≡ length (t ++ 0 ∷ []) =
      omega (arith, length-append t (0 ∷ []), v.in_range) in
    rw e (in_sized-Appended b (t ++ 0 ∷ []) v s o (omega arith))
write_field-Appended b (wstr t) v s o h =
    let e : wrap16 ((min (length t) (room b) + 1) * 2) ≡ length (wide_bytes (t ++ 0 ∷ [])) =
      omega (arith, length-append t (0 ∷ []), length-wide_bytes (t ++ 0 ∷ []), v.in_range) in
    rw e (in_sized-Appended b (wide_bytes (t ++ 0 ∷ [])) v s o (omega arith))

in_sized_full :
    (b : Buffer) (size : ℕ) (memory : List ℕ)
    → b.success ≡ true
    → size < 65534
    → buffer_size < b.in_pos + (2 + size)
    → in_sized b size memory ≡ (0, refuse b)
unfolding in_sized put
in_sized_full b size memory s k h = ground arith

-- Where it does not fit, nothing is written and the buffer fails.
pub write_field_full :
    (b : Buffer) (f : Field)
    → IsValid b
    → b.success ≡ true
    → IsSmall f
    → buffer_size < b.in_pos + length (encode f)
    → write_field b f ≡ (0, refuse b)
unfolding write_field put in_string in_wstring
write_field_full b (raw bytes) v s k h = rw (take-wrap16 bytes k) (ground arith)
write_field_full b (str t) v s k h =
    in_sized_full b _ (t ++ 0 ∷ []) s (omega (arith, v.in_range))
      (omega (arith, length-append t (0 ∷ []), v.in_range))
write_field_full b (wstr t) v s k h =
    in_sized_full b _ (wide_bytes (t ++ 0 ∷ [])) s (omega (arith, v.in_range))
      (omega (arith, length-append t (0 ∷ []), length-wide_bytes (t ++ 0 ∷ []), v.in_range))

-- A buffer that failed stays as it is until InSuccess.
pub write_field_failed : (b : Buffer) (f : Field) → b.success ≡ false → write_field b f ≡ (0, b)
unfolding write_field put in_string in_wstring in_sized
write_field_failed b (raw bytes) s = ground arith
write_field_failed b (str t) s = ground arith
write_field_failed b (wstr t) s = ground arith

-- ===== src/Buffer/RoundTrip.antt =====
-- A whole message: the values that operator<< wrote come back through operator>>, in order.
use network.Prelude.{
  ℕ, ◌≡◌, ◌≤◌, ◌<◌, ◌+◌, ◌/◌, ◌%◌, replicate, ◌∙◌, ap, sym, refl, wrap16, true, false, Option, some,
  List, [], ◌∷◌, ◌++◌, map, length, arith, append-nil, append_assoc, length-append, Bool-cases, inl,
  inr, leb, leb→le, ◌↔◌, drop-all, length-take, take,
}
use network.Buffer.{Buffer, buffer_size, IsValid, IsReadable, get, out_string, wide_bytes, refuse}
use network.Buffer.Contents.{contents, Appended, Appended-trans}
use network.Buffer.Writing.{
  Field, raw, str, wstr, write_field, encode, IsSmall, write_field-Appended, write_field_full,
  write_field_failed, length-wide_bytes,
}
use network.Buffer.Reading.{Taken, get-Taken, length-contents}
use network.Buffer.Strings.{Sized, out_string-Taken}

-- A chain `buffer << a << b << …`, with the sum of what the calls return.
unfoldable pub write_all : Buffer → List Field → ℕ × Buffer
write_all b [] = (0, b)
write_all b (f ∷ fs) =
    let (n, b') = write_field b f in let (m, b'') = write_all b' fs in (n + m, b'')

abbrev pub encode_all : List Field → List ℕ
encode_all [] = []
encode_all (f ∷ fs) = encode f ++ encode_all fs

abbrev pub AllSmall : List Field → Type 0
AllSmall [] = Unit {0}
AllSmall (f ∷ fs) = IsSmall f × AllSmall fs

write_all_failed : (b : Buffer) (fs : List Field) → b.success ≡ false → write_all b fs ≡ (0, b)
unfolding write_all
write_all_failed b [] s = refl
write_all_failed b (f ∷ fs) s = rw (write_field_failed b f s, write_all_failed b fs s) refl

-- What a message that fits does: it is appended in its encoding, and its length returned.
pub write_all-Appended :
    (b : Buffer) (fs : List Field)
    → IsValid b
    → b.success ≡ true
    → b.out_pos ≤ b.in_pos
    → b.in_pos + length (encode_all fs) ≤ buffer_size
    → ((write_all b fs).0 ≡ length (encode_all fs)) × Appended b (encode_all fs) (write_all b fs).1
unfolding write_all
write_all-Appended b [] v s o h = (
  refl,
  record {
    success = s;
    in_pos = omega arith;
    out_pos = refl;
    contents_eq = sym (append-nil (contents b));
    valid = v;
  },
)
write_all-Appended b (f ∷ fs) v s o h =
    let l = length-append (encode f) (encode_all fs) in
    let (n, a) = write_field-Appended b f v s o (omega (arith, l)) in
    let (m, c) =
      write_all-Appended (write_field b f).1 fs a.valid a.success
        (omega (arith, a.in_pos, a.out_pos)) (omega (arith, l, a.in_pos)) in
    (omega (arith, n, m, l), Appended-trans (encode f) (encode_all fs) l a c)

-- A message that does not fit leaves the buffer failed.
write_all_full :
    (b : Buffer) (fs : List Field)
    → IsValid b
    → b.success ≡ true
    → b.out_pos ≤ b.in_pos
    → AllSmall fs
    → buffer_size < b.in_pos + length (encode_all fs)
    → (write_all b fs).1.success ≡ false
unfolding write_all
write_all_full b [] v s o k h = absurd (omega (arith, v.in_range))
write_all_full b (f ∷ fs) v s o k h =
    elim (Bool-cases (leb (b.in_pos + length (encode f)) buffer_size)) [
      | inl fits ↦
          let l = length-append (encode f) (encode_all fs) in
          let (n, a) = write_field-Appended b f v s o (leb→le _ _ fits) in
          write_all_full (write_field b f).1 fs a.valid a.success
            (omega (arith, a.in_pos, a.out_pos)) k.1 (omega (arith, l, a.in_pos))
      | inr over ↦
          rw (write_field_full b f v s k.0 (ground arith), write_all_failed (refuse b) fs refl) refl
    ]

-- A valid buffer that has not failed, with `_out` at most `_in`, accepts a message whose objects
-- have fewer than 65536 bytes and whose wide strings have at most 32765 characters exactly when
-- the message's encoding fits in what is left of the 60000 bytes.
pub write_all-success_iff :
    (b : Buffer) (fs : List Field)
    → IsValid b
    → b.success ≡ true
    → b.out_pos ≤ b.in_pos
    → AllSmall fs
    → ((write_all b fs).1.success ≡ true) ↔ (b.in_pos + length (encode_all fs) ≤ buffer_size)
write_all-success_iff b fs v s o k = (only, λ h. (write_all-Appended b fs v s o h).1.success)
  where
    only : (write_all b fs).1.success ≡ true → b.in_pos + length (encode_all fs) ≤ buffer_size
    only t = elim (Bool-cases (leb (b.in_pos + length (encode_all fs)) buffer_size)) [
      | inl fits ↦ leb→le _ _ fits
      | inr over ↦ cc (write_all_full b fs v s o k (ground arith))
    ]

-- What a reader asks for: an object of `n` bytes, or a string through a pointer.
pub data Kind : Type 0 where
  object : ℕ → Kind
  narrow : Kind
  wide : Kind

abbrev pub kind : Field → Kind
kind (raw bytes) = object (length bytes)
kind (str s) = narrow
kind (wstr s) = wide

-- The bytes that a reader of the value should see.
abbrev pub payload : Field → List ℕ
payload (raw bytes) = bytes
payload (str s) = s ++ 0 ∷ []
payload (wstr s) = wide_bytes (s ++ 0 ∷ [])

-- operator>> and Out; the size of an object is converted to a USHORT.
unfoldable pub read_field : Buffer → Kind → Option (List ℕ) × Buffer
read_field b (object n) = get b (wrap16 n)
read_field b narrow = out_string 1 b 0
read_field b wide = out_string 2 b 0

unfoldable pub read_all : Buffer → List Kind → List (Option (List ℕ)) × Buffer
read_all b [] = ([], b)
read_all b (k ∷ ks) =
    let (got, b') = read_field b k in let (rest, b'') = read_all b' ks in (got ∷ rest, b'')

-- C++ has no object of size 0, and a narrow string is shorter than the buffer.
abbrev pub Readable : Field → Type 0
Readable (raw bytes) = 0 < length bytes
Readable (str s) = length s < 65535
Readable (wstr s) = length s ≤ 32765

abbrev pub AllReadable : List Field → Type 0
AllReadable [] = Unit {0}
AllReadable (f ∷ fs) = Readable f × AllReadable fs

wide_bytes-text : (s : List ℕ) → wide_bytes (s ++ 0 ∷ []) ≡ wide_bytes s ++ 0 ∷ 0 ∷ []
wide_bytes-text [] = refl
wide_bytes-text (c ∷ s) = ap (λ l. c % 256 ∷ c / 256 % 256 ∷ l) (wide_bytes-text s)

pub IsValid-IsReadable : {b : Buffer} → IsValid b → IsReadable b
IsValid-IsReadable v = omega (arith, v.storage)

read_field-Taken :
    (b : Buffer) (f : Field) (rest : List ℕ)
    → IsReadable b
    → Readable f
    → contents b ≡ encode f ++ rest
    → ((read_field b (kind f)).0 ≡ some (payload f))
      × Taken b (encode f) rest (read_field b (kind f)).1
unfolding read_field replicate
read_field-Taken b (raw bytes) rest v r c =
    let e : wrap16 (length bytes) ≡ length bytes =
      omega (arith, length-append bytes rest, length-contents b v, ap length c, v.in_range) in
    rw e (get-Taken b bytes rest v r c)
read_field-Taken b (str s) rest v r c =
    out_string-Taken b 1 (length (s ++ 0 ∷ [])) (length (s ++ 0 ∷ [])) s rest v sized c
  where
    sized : Sized 1 (length (s ++ 0 ∷ [])) (length (s ++ 0 ∷ [])) s
    sized = omega (arith, length-append s (0 ∷ []))
read_field-Taken b (wstr s) rest v r c = rw (wide_bytes-text s) (
    out_string-Taken b 2 (length s + 1) (length (wide_bytes s ++ 0 ∷ 0 ∷ [])) (wide_bytes s) rest v
      sized (rw (wide_bytes-text s) at c))
  where
    sized : Sized 2 (length s + 1) (length (wide_bytes s ++ 0 ∷ 0 ∷ [])) (wide_bytes s)
    sized = omega (arith, length-append (wide_bytes s) (0 ∷ 0 ∷ []), length-wide_bytes s)

pub read_all-payload :
    (b : Buffer) (fs : List Field) (rest : List ℕ)
    → IsReadable b
    → AllReadable fs
    → contents b ≡ encode_all fs ++ rest
    → ((read_all b (map kind fs)).0 ≡ map (λ f. some (payload f)) fs)
      × (contents (read_all b (map kind fs)).1 ≡ rest)
unfolding read_all
read_all-payload b [] rest v r c = (refl, c)
read_all-payload b (f ∷ fs) rest v r c =
    let (e, t) =
      read_field-Taken b f (encode_all fs ++ rest) v r.0
        (c ∙ append_assoc (encode f) (encode_all fs) rest) in
    let (es, u) = read_all-payload (read_field b (kind f)).1 fs rest t.valid r.1 t.contents_eq in
    (λ i. e i ∷ es i, u)

-- If a valid buffer that has not failed and has been read to its end accepts a message (objects
-- are not empty and have fewer than 65536 bytes, narrow strings have fewer than 65535 characters
-- and wide ones at most 32765), a reader that asks for the same kinds of values gets the same
-- values in order, and has then read everything.
pub read_all-write_all :
    (b : Buffer) (fs : List Field)
    → IsValid b
    → b.success ≡ true
    → b.out_pos ≡ b.in_pos
    → AllReadable fs
    → AllSmall fs
    → (write_all b fs).1.success ≡ true
    → let (got, after) = read_all (write_all b fs).1 (map kind fs) in
      (got ≡ map (λ f. some (payload f)) fs) × (contents after ≡ [])
read_all-write_all b fs v s o r k t =
    let h = (write_all-success_iff b fs v s (omega arith) k).0 t in
    let (n, a) = write_all-Appended b fs v s (omega arith) h in
    read_all-payload (write_all b fs).1 fs [] (IsValid-IsReadable a.valid) r
      (a.contents_eq ∙ ap (λ l. l ++ encode_all fs) empty ∙ sym (append-nil (encode_all fs)))
  where
    empty : contents b ≡ []
    empty =
        rw o (drop-all b.in_pos (take b.in_pos b.buf) (omega (arith, length-take b.in_pos b.buf)))

-- ===== src/Buffer/Strings.antt =====
-- _OutString: a string that was written comes back, whole or cut to the caller's array.
use network.Prelude.{
  ℕ, ◌≡◌, ◌≤◌, ◌<◌, ◌+◌, ◌-◌, ◌*◌, ◌/◌, ◌∙◌, ap, sym, refl, some, List, ◌++◌, length, take, drop,
  blit, arith, length-take, length-append, append_assoc, length-replicate, take-append-drop,
  drop-append, blit-same, drop-drop, take-take, take-length_append, drop-length_append, le16,
  u16_at, replicate, ltb, min, tests, Bool-cases, inl, inr, blit-last, take-append,
}
use network.Buffer.{Buffer, IsReadable, get, out_string, out_body}
use network.Buffer.Contents.{contents}
use network.Buffer.Reading.{Taken, Taken-trans, length-contents, take-contents, advance, get-Taken}

-- A string's bytes in the buffer: its characters, then a terminator of `w` bytes.
abbrev pub text : ℕ → List ℕ → List ℕ
text w body = body ++ replicate w 0

whole :
    (b : Buffer)
    → IsReadable b
    → b.out_pos ≤ b.in_pos
    → drop b.out_pos b.buf ≡ contents b ++ drop b.in_pos b.buf
whole b v h =
    ap (drop b.out_pos) (sym (take-append-drop b.in_pos b.buf))
    ∙ drop-append b.out_pos (take b.in_pos b.buf) (drop b.in_pos b.buf)
        (omega (arith, length-take b.in_pos b.buf, v.storage, v.in_range))

-- The sizes of a string that stands at the front of the buffer.
pub record Sized (w lenth size : ℕ) (body : List ℕ) : Type 0 where
  pub width : 0 < w
  pub some_chars : 0 < lenth
  pub quotient : size / w ≡ lenth
  pub product : size ≡ lenth * w
  pub body_length : length body ≡ (lenth - 1) * w
  pub text_length : length (text w body) ≡ size
  pub word : size < 65536

module _ (b : Buffer) (w lenth size : ℕ) (body rest : List ℕ) (v : IsReadable b)
    (z : Sized w lenth size body) (c : contents b ≡ text w body ++ rest) where
  size_fits : b.out_pos + size ≤ b.in_pos
  size_fits = omega (
    arith,
    length-contents b v,
    ap length c,
    length-append (text w body) rest,
    z.text_length,
    v.in_range,
  )

  size_pos : 0 < size
  size_pos = omega (
    arith,
    z.text_length,
    length-append body (replicate w 0),
    length-replicate {A = ℕ} w 0,
    z.width,
  )

  body_front : take size (drop b.out_pos b.buf) ≡ text w body
  body_front =
      take-contents b size size_fits
      ∙ ap (take size) c
      ∙ ap (λ n. take n (text w body ++ rest)) (sym z.text_length)
      ∙ take-length_append (text w body) rest

  -- The terminator that the pointer version writes is there already.
  terminator_same : blit b.buf (b.out_pos + (lenth - 1) * w) (replicate w 0) ≡ b.buf
  terminator_same =
      blit-same b.buf (b.out_pos + (lenth - 1) * w) (replicate w 0) (rest ++ drop b.in_pos b.buf) (
        sym (
          drop-drop b.out_pos (length body) (b.out_pos + (lenth - 1) * w) b.buf
            (omega (arith, z.body_length)))
        ∙ ap (drop (length body)) (whole b v (omega (arith, size_fits)))
        ∙ ap (λ l. drop (length body) (l ++ drop b.in_pos b.buf)) c
        ∙ ap (drop (length body)) (
            ap (λ l. l ++ drop b.in_pos b.buf) (append_assoc body (replicate w 0) rest)
            ∙ append_assoc body (replicate w 0 ++ rest) (drop b.in_pos b.buf))
        ∙ drop-length_append body ((replicate w 0 ++ rest) ++ drop b.in_pos b.buf)
        ∙ append_assoc (replicate w 0) rest (drop b.in_pos b.buf))

  out_body_pointer :
      out_body w size 0 b ≡ (some (text w body), record b { out_pos = b.out_pos + size })
  unfolding out_body
  out_body_pointer =
      rw (z.quotient, terminator_same, ← z.product, body_front)
        (ground (arith, size_pos, size_fits, z.some_chars, v.in_range))

  cut_text :
      (m : ℕ)
      → 0 < m
      → m ≤ lenth
      → blit (take (m * w) (drop b.out_pos b.buf)) ((m - 1) * w) (replicate w 0)
        ≡ take ((m - 1) * w) body ++ replicate w 0
  cut_text m p h =
      let within : m * w ≤ size = grind (arith, z.product) in
      let split : m * w ≡ (m - 1) * w + w = grind arith in
      let inner : (m - 1) * w ≤ length body = grind (arith, z.body_length) in
      let front : take (m * w) (drop b.out_pos b.buf) ≡ take (m * w) (text w body) =
        sym (take-take (m * w) size (drop b.out_pos b.buf) within) ∙ ap (take (m * w)) body_front in
      rw front (
        blit-last (take (m * w) (text w body)) ((m - 1) * w) (replicate w 0) (
          omega
            (arith, length-take (m * w) (text w body), z.text_length, length-replicate {A = ℕ} w 0))
        ∙ ap (λ l. l ++ replicate w 0)
            (take-take ((m - 1) * w) (m * w) (text w body) (omega arith)
              ∙ take-append ((m - 1) * w) body (replicate w 0) inner))

  -- The array version copies `min count lenth` characters and terminates them.
  out_body_array :
      (count : ℕ)
      → 0 < count
      → out_body w size count b ≡ (
        some (take ((min count lenth - 1) * w) body ++ replicate w 0),
        record b { out_pos = b.out_pos + size },
      )
  unfolding out_body
  out_body_array count h = elim (Bool-cases (ltb count lenth)) [
    | inl lt ↦
        let e : min count lenth ≡ count = omega tests in
        rw (z.quotient, lt, e, cut_text count h (omega tests))
          (ground (arith, size_pos, size_fits, z.some_chars, v.in_range))
    | inr ge ↦
        let e : min count lenth ≡ lenth = omega tests in
        rw (z.quotient, ge, e, z.product, cut_text lenth z.some_chars (omega arith))
          (ground (arith, size_pos, size_fits, z.some_chars, v.in_range, z.product))
  ]

  body-Taken : Taken b (text w body) rest (record b { out_pos = b.out_pos + size })
  body-Taken = record {
    success = refl;
    in_pos = refl;
    out_pos = ap (◌+◌ b.out_pos) (sym z.text_length);
    contents_eq =
        advance b (text w body) rest (b.out_pos + size) (ap (◌+◌ b.out_pos) (sym z.text_length)) c;
    valid = record {
      storage = v.storage;
      in_range = v.in_range;
      out_range = omega (arith, size_fits, v.in_range);
      try_range = v.try_range;
    };
  }

out_string_step :
    (w count size : ℕ) (b : Buffer)
    → size < 65536
    → (get b 2).0 ≡ some (le16 size)
    → out_string w b count ≡ out_body w size count (get b 2).1
unfolding out_string
out_string_step w count size b h e =
    let word : u16_at (le16 size) 0 ≡ size = omega (arith, h) in
    rw (e, out_string) (ap (λ n. out_body w n count (get b 2).1) word)

module _ (b : Buffer) (w lenth size : ℕ) (body rest : List ℕ) (v : IsReadable b)
    (z : Sized w lenth size body) (c : contents b ≡ (le16 size ++ text w body) ++ rest) where
  header : ((get b 2).0 ≡ some (le16 size)) × Taken b (le16 size) (text w body ++ rest) (get b 2).1
  header =
      get-Taken b (le16 size) (text w body ++ rest) v (omega arith)
        (c ∙ append_assoc (le16 size) (text w body) rest)

  taken :
      Taken b
        (le16 size ++ text w body)
        rest
        (record (get b 2).1 { out_pos = (get b 2).1.out_pos + size })
  taken =
      Taken-trans (le16 size) (text w body) rest header.1
        (body-Taken (get b 2).1 w lenth size body rest header.1.valid z header.1.contents_eq)

  -- A string that was written comes back through the pointer version of `_OutString`.
  pub out_string-Taken :
      ((out_string w b 0).0 ≡ some (text w body))
      × Taken b (le16 size ++ text w body) rest (out_string w b 0).1
  out_string-Taken =
      rw
        (
          out_string_step w 0 size b z.word header.0,
          out_body_pointer (get b 2).1 w lenth size body rest header.1.valid z header.1.contents_eq,
        )
        (refl, taken)

  -- If a string stands at the front of a readable buffer, `_OutString` into an array of `count` >
  -- 0 characters gives the string's first characters, one fewer than the smaller of `count` and
  -- its length with the terminator, and a terminator, and takes the whole string from the buffer.
  pub out_string_array-Taken :
      (count : ℕ)
      → 0 < count
      → ((out_string w b count).0 ≡ some (take ((min count lenth - 1) * w) body ++ replicate w 0))
        × Taken b (le16 size ++ text w body) rest (out_string w b count).1
  out_string_array-Taken count h =
      rw
        (
          out_string_step w count size b z.word header.0,
          out_body_array (get b 2).1 w lenth size body rest header.1.valid z header.1.contents_eq
              count h,
        )
        (refl, taken)

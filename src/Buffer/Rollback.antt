-- ===== src/Buffer/Rollback.antt =====
-- InSuccess and _RollBack: what a message that did not fit leaves behind.
use network.Prelude.{
  ℕ, ◌≡◌, ◌≤◌, ◌<◌, ◌+◌, ◌-◌, ◌*◌, ◌%◌, ◌∙◌, ap, sym, refl, true, false, Bool, List, [], ◌∷◌, ◌++◌,
  length, arith, length-append, take, drop, drop-take, take-take, take-append, length-drop,
  length-take, min, wrap16, add16, sub16,
}
use network.Buffer.{
  Buffer, buffer_size, IsValid, in_string, in_wstring, wide_bytes, refuse, room, roll_back,
  in_success,
}
use network.Buffer.Contents.{contents, Appended}
use network.Buffer.Writing.{
  Field, raw, str, wstr, write_field, encode, IsSmall, write_field-Appended, write_field_full,
  write_field_raw, put_fits, in_sized_fits, length-wide_bytes,
}
use network.Buffer.RoundTrip.{write_all, encode_all, write_all-Appended}

-- How many values are strings.
abbrev pub string_one : Field → ℕ
string_one (raw bytes) = 0
string_one (str s) = 1
string_one (wstr s) = 1

abbrev pub strings : List Field → ℕ
strings [] = 0
strings (f ∷ fs) = string_one f + strings fs

-- `_trySize` grows by the length of the encoding, and by 2 more for a string: `_In` has counted
-- the length word before `_InString` adds the total.
try_size-write_field :
    (b : Buffer) (f : Field)
    → IsValid b
    → b.success ≡ true
    → b.in_pos + length (encode f) ≤ buffer_size
    → (write_field b f).1.try_size ≡ (b.try_size + length (encode f) + 2 * string_one f) % 65536
unfolding write_field in_string in_wstring
try_size-write_field b (raw bytes) v s h =
    rw (write_field_raw b bytes (omega arith), put_fits b bytes s h) (omega arith)
try_size-write_field b (str t) v s h =
    let e : wrap16 ((min (length t) (room b) + 1) * 1) ≡ length (t ++ 0 ∷ []) =
      omega (arith, length-append t (0 ∷ []), v.in_range) in
    rw (e, in_sized_fits b (length (t ++ 0 ∷ [])) (t ++ 0 ∷ []) s (omega arith)) (omega arith)
try_size-write_field b (wstr t) v s h =
    let e : wrap16 ((min (length t) (room b) + 1) * 2) ≡ length (wide_bytes (t ++ 0 ∷ [])) =
      omega (arith, length-append t (0 ∷ []), length-wide_bytes (t ++ 0 ∷ []), v.in_range) in
    let m = wide_bytes (t ++ 0 ∷ []) in
    rw (e, in_sized_fits b (length m) m s (omega arith)) (omega arith)

try_size-write_all :
    (b : Buffer) (fs : List Field)
    → IsValid b
    → b.success ≡ true
    → b.out_pos ≤ b.in_pos
    → b.in_pos + length (encode_all fs) ≤ buffer_size
    → (write_all b fs).1.try_size ≡ (b.try_size + length (encode_all fs) + 2 * strings fs) % 65536
unfolding write_all
try_size-write_all b [] v s o h = omega (arith, v.try_range)
try_size-write_all b (f ∷ fs) v s o h =
    let l = length-append (encode f) (encode_all fs) in
    let (n, a) = write_field-Appended b f v s o (omega (arith, l)) in
    omega (
      arith,
      l,
      try_size-write_field b f v s (omega (arith, l)),
      try_size-write_all (write_field b f).1 fs a.valid a.success
          (omega (arith, a.in_pos, a.out_pos)) (omega (arith, l, a.in_pos)),
    )

-- Moving `_in` back keeps the start of the contents.
contents-shrink :
    (b : Buffer) (q : ℕ)
    → q ≤ b.in_pos
    → drop b.out_pos (take q b.buf) ≡ take (q - b.out_pos) (contents b)
contents-shrink b q h =
    drop-take b.out_pos q b.buf
    ∙ sym (take-take (q - b.out_pos) (b.in_pos - b.out_pos) (drop b.out_pos b.buf) (omega arith))
    ∙ ap (take (q - b.out_pos)) (sym (drop-take b.out_pos b.in_pos b.buf))

-- The message `fs` has gone in, `g` does not fit, and the caller asks InSuccess.
abbrev pub after_failure : Buffer → List Field → Field → Bool × ℕ × Buffer
after_failure b fs g = in_success (write_field (write_all b fs).1 g).1

-- The conditions of such a failure, from a buffer whose last message was closed by InSuccess.
pub record Fails (b : Buffer) (fs : List Field) (g : Field) : Type 0 where
  pub valid : IsValid b
  pub success : b.success ≡ true
  pub closed : b.try_size ≡ 0
  pub order : b.out_pos ≤ b.in_pos
  pub fits : b.in_pos + length (encode_all fs) ≤ buffer_size
  pub small : IsSmall g
  pub over : buffer_size < b.in_pos + length (encode_all fs) + length (encode g)

in_success-refuse :
    (b : Buffer)
    → in_success (refuse b)
      ≡ (false, (roll_back (refuse b)).0, record (roll_back (refuse b)).1 { success = true })
unfolding in_success
in_success-refuse b = refl

module _ (b : Buffer) (fs : List Field) (g : Field) (x : Fails b fs g) where
  written : Appended b (encode_all fs) (write_all b fs).1
  written = (write_all-Appended b fs x.valid x.success x.order x.fits).1

  failure : after_failure b fs g ≡ in_success (refuse (write_all b fs).1)
  failure =
      ap (λ p. in_success p.1)
        (write_field_full (write_all b fs).1 g written.valid written.success x.small
          (omega (arith, written.in_pos, x.over)))

  failed_try : (write_all b fs).1.try_size ≡ (length (encode_all fs) + 2 * strings fs) % 65536
  failed_try =
      try_size-write_all b fs x.valid x.success x.order x.fits
      ∙ ap (λ n. (n + length (encode_all fs) + 2 * strings fs) % 65536) x.closed
      ∙ omega arith

  kept_contents :
      (q : ℕ)
      → q ≤ b.in_pos
      → drop (write_all b fs).1.out_pos (take q (write_all b fs).1.buf)
        ≡ take (q - b.out_pos) (contents b)
  kept_contents q h =
      contents-shrink (write_all b fs).1 q (omega (arith, written.in_pos))
      ∙ ap (take (q - (write_all b fs).1.out_pos)) written.contents_eq
      ∙ ap (λ o. take (q - o) (contents b ++ encode_all fs)) written.out_pos
      ∙ take-append (q - b.out_pos) (contents b) (encode_all fs) (
          omega (
            arith,
            length-drop b.out_pos (take b.in_pos b.buf),
            length-take b.in_pos b.buf,
            x.valid.storage,
            x.valid.in_range,
          ))

roll_back_within :
    (b : Buffer) (n : ℕ)
    → sub16 b.in_pos b.try_size ≡ n
    → n ≤ buffer_size
    → roll_back b ≡ (b.try_size, record b { in_pos = n; try_size = 0 })
unfolding roll_back
roll_back_within b n e h = ground arith

roll_back_outside :
    (b : Buffer) (n : ℕ)
    → sub16 b.in_pos b.try_size ≡ n
    → buffer_size < n
    → roll_back b ≡ (add16 b.try_size n, record b { in_pos = 0; try_size = 0 })
unfolding roll_back
roll_back_outside b n e h = ground arith

-- The answer of InSuccess after a failure: `size` bytes given up, `_in` at `n`, the contents cut.
pub record RolledBack (b : Buffer) (n size : ℕ) (r : Bool × ℕ × Buffer) : Type 0 where
  pub answer : r.0 ≡ false
  pub given_up : r.1 ≡ size
  pub in_pos : r.2.in_pos ≡ n
  pub ready : r.2.success ≡ true
  pub closed : r.2.try_size ≡ 0
  pub contents_eq : contents r.2 ≡ take (n - b.out_pos) (contents b)

-- In a valid buffer that has not failed, with its last message closed and `_out` at most `_in`, a
-- message of which some values fit, `k` strings among them, and the next (no wide string of over
-- 32765 characters, and no object of 65536 bytes or more) does not, is rolled back by InSuccess to
-- 2 * k bytes before its start, if there were that many: the contents are cut there, the size
-- given up is the message's length so far and 2 * k (modulo 65536), the answer is false, and the
-- buffer takes values again.
pub roll_back_strings :
    (b : Buffer) (fs : List Field) (g : Field)
    → Fails b fs g
    → 2 * strings fs ≤ b.in_pos
    → RolledBack b
        (b.in_pos - 2 * strings fs)
        ((length (encode_all fs) + 2 * strings fs) % 65536)
        (after_failure b fs g)
roll_back_strings b fs g x h =
    let w = (write_all b fs).1 in
    let e =
      roll_back_within (refuse w) (b.in_pos - 2 * strings fs)
        (omega (arith, (written b fs g x).in_pos, failed_try b fs g x, x.fits))
        (omega (arith, x.fits)) in
    rw (failure b fs g x, in_success-refuse w, e)
      (record {
        answer = refl;
        given_up = failed_try b fs g x;
        in_pos = refl;
        ready = refl;
        closed = refl;
        contents_eq = kept_contents b fs g x (b.in_pos - 2 * strings fs) (omega arith);
      })

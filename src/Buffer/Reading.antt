-- ===== src/Buffer/Reading.antt =====
-- _Out and _OutString take from the front of the contents.
use network.Prelude.{
  ℕ, ◌≡◌, ◌≤◌, ◌<◌, ◌+◌, ◌-◌, ◌∙◌, ap, sym, refl, some, List, ◌++◌, length, take, drop, arith,
  length-drop, length-take, length-append, drop-take, drop-drop, take-take, take-length_append,
  drop-length_append,
}
use network.Buffer.{Buffer, IsReadable, get, out_empty}
use network.Buffer.Contents.{contents}

-- `b'` is `b` with `bytes` taken from the front of its contents, `rest` being what follows.
pub record Taken (b : Buffer) (bytes rest : List ℕ) (b' : Buffer) : Type 0 where
  pub success : b'.success ≡ b.success
  pub in_pos : b'.in_pos ≡ b.in_pos
  pub out_pos : b'.out_pos ≡ b.out_pos + length bytes
  pub contents_eq : contents b' ≡ rest
  pub valid : IsReadable b'

pub length-contents : (b : Buffer) → IsReadable b → length (contents b) ≡ b.in_pos - b.out_pos
length-contents b v = omega (
  arith,
  length-drop b.out_pos (take b.in_pos b.buf),
  length-take b.in_pos b.buf,
  v.storage,
  v.in_range,
)

-- What `_Out` copies is the start of the contents.
pub take-contents :
    (b : Buffer) (n : ℕ)
    → b.out_pos + n ≤ b.in_pos
    → take n (drop b.out_pos b.buf) ≡ take n (contents b)
take-contents b n h =
    sym (take-take n (b.in_pos - b.out_pos) (drop b.out_pos b.buf) (omega arith))
    ∙ ap (take n) (sym (drop-take b.out_pos b.in_pos b.buf))

get_fits :
    (b : Buffer) (n : ℕ)
    → IsReadable b
    → 0 < n
    → b.out_pos + n ≤ b.in_pos
    → get b n ≡ (some (take n (drop b.out_pos b.buf)), record b { out_pos = b.out_pos + n })
unfolding get out_empty
get_fits b n v p h = ground (arith, v.in_range)

pub advance :
    (b : Buffer) (bytes rest : List ℕ) (n : ℕ)
    → n ≡ b.out_pos + length bytes
    → contents b ≡ bytes ++ rest
    → drop n (take b.in_pos b.buf) ≡ rest
advance b bytes rest n e c =
    sym (drop-drop b.out_pos (length bytes) n (take b.in_pos b.buf) e)
    ∙ ap (drop (length bytes)) c
    ∙ drop-length_append bytes rest

-- `_Out` of as many bytes as were written gives them back.
pub get-Taken :
    (b : Buffer) (bytes rest : List ℕ)
    → IsReadable b
    → 0 < length bytes
    → contents b ≡ bytes ++ rest
    → ((get b (length bytes)).0 ≡ some bytes) × Taken b bytes rest (get b (length bytes)).1
get-Taken b bytes rest v p c =
    let fits : b.out_pos + length bytes ≤ b.in_pos =
      omega (arith, length-contents b v, ap length c, length-append bytes rest) in
    rw (get_fits b (length bytes) v p fits) (
      ap some (
          take-contents b (length bytes) fits
          ∙ ap (take (length bytes)) c
          ∙ take-length_append bytes rest),
      record {
        success = refl;
        in_pos = refl;
        out_pos = refl;
        contents_eq = advance b bytes rest (b.out_pos + length bytes) refl c;
        valid = record {
          storage = v.storage;
          in_range = v.in_range;
          out_range = omega (arith, v.in_range);
          try_range = v.try_range;
        };
      },
    )

pub Taken-trans :
    {b c d : Buffer} (xs ys rest : List ℕ)
    → Taken b xs (ys ++ rest) c
    → Taken c ys rest d
    → Taken b (xs ++ ys) rest d
Taken-trans xs ys rest p q = record {
  success = q.success ∙ p.success;
  in_pos = q.in_pos ∙ p.in_pos;
  out_pos = omega (arith, p.out_pos, q.out_pos, length-append xs ys);
  contents_eq = q.contents_eq;
  valid = q.valid;
}

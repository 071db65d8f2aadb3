-- ===== src/Buffer/Contents.antt =====
-- What a reader of the buffer can still see: the bytes between `_out` and `_in`.
use network.Prelude.{
  ℕ, ◌≡◌, ◌≤◌, ◌+◌, ◌∙◌, ap, true, List, ◌++◌, length, take, drop, blit, arith, length-take,
  take-blit_end, drop-append, append_assoc,
}
use network.Buffer.{Buffer, IsValid}

abbrev pub contents : Buffer → List ℕ
contents b = drop b.out_pos (take b.in_pos b.buf)

-- `b'` is `b` with `bytes` written behind its contents.
pub record Appended (b : Buffer) (bytes : List ℕ) (b' : Buffer) : Type 0 where
  pub success : b'.success ≡ true
  pub in_pos : b'.in_pos ≡ b.in_pos + length bytes
  pub out_pos : b'.out_pos ≡ b.out_pos
  pub contents_eq : contents b' ≡ contents b ++ bytes
  pub valid : IsValid b'

-- Copying behind `_in` appends to the contents.
pub drop-take-blit :
    (xs : List ℕ) (o i n : ℕ) (src : List ℕ)
    → n ≡ i + length src
    → n ≤ length xs
    → o ≤ i
    → drop o (take n (blit xs i src)) ≡ drop o (take i xs) ++ src
drop-take-blit xs o i n src e h k =
    ap (drop o) (take-blit_end xs i n src e h)
    ∙ drop-append o (take i xs) src (omega (arith, length-take i xs))

-- Two appends in a row are one.
pub Appended-trans :
    {b c d : Buffer} (xs ys : List ℕ)
    → length (xs ++ ys) ≡ length xs + length ys
    → Appended b xs c
    → Appended c ys d
    → Appended b (xs ++ ys) d
Appended-trans {b} xs ys l p q = record {
  success = q.success;
  in_pos = omega (arith, p.in_pos, q.in_pos);
  out_pos = q.out_pos ∙ p.out_pos;
  contents_eq = q.contents_eq ∙ ap (λ c. c ++ ys) p.contents_eq ∙ append_assoc (contents b) xs ys;
  valid = q.valid;
}

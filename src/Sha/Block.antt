-- ===== src/Sha/Block.antt =====
-- The four loops of `_ProcessMessageBlock` against the one loop of 80 rounds.
use network.Prelude.{
  ℕ, zero, suc, ◌≡◌, ◌≤◌, ◌<◌, ◌+◌, ◌-◌, ◌*◌, get_or, ◌∙◌, refl, ap, sym, List, [], ◌∷◌, ◌++◌,
  length, take, drop, arith, length-append, length-take, length-drop, take-append-drop, drop-all,
  drop-drop, lt→ltb, le→ltb,
}
use network.Sha.{
  Hash, Sha1, rounds, block_words, extend_words, choose, parity, majority, process_message_block,
  add_hash, mask32, shift1, shift5, shift30,
}
use Prim.Native.Nat.{bit_and, bit_or, bit_xor}
use network.Sha.Reference.{round_function, round_constant, all_rounds, compress, words_of, schedule}

length-block_words : (n : ℕ) (bytes : List ℕ) → length (block_words n bytes) ≡ n
unfolding block_words
length-block_words zero bytes = refl
length-block_words (suc n) bytes = ap suc (length-block_words n (drop 4 bytes))

length-extend_words :
    (n t : ℕ) (words : List ℕ) → length (extend_words n t words) ≡ n + length words
unfolding extend_words
length-extend_words zero t words = omega arith
length-extend_words (suc n) t words =
    length-extend_words n (t + 1) _ ∙ omega (arith, length-append words _)

-- The rounds from `t` to `t + n` have the function `f` and the constant `k`.
abbrev Uniform : (ℕ → ℕ → ℕ → ℕ) → ℕ → ℕ → ℕ → Type 0
Uniform f k t n =
    (i : ℕ)
    → t ≤ i
    → i < t + n
    → ((b c d : ℕ) → round_function i b c d ≡ f b c d) × (round_constant i ≡ k)

rounds-all_rounds :
    (f : ℕ → ℕ → ℕ → ℕ) (k t : ℕ) (ws rest : List ℕ) (v : Hash)
    → Uniform f k t (length ws)
    → all_rounds t (ws ++ rest) v ≡ all_rounds (t + length ws) rest (rounds f k ws v)
unfolding all_rounds rounds
rounds-all_rounds f k t [] rest v u = ap (λ n. all_rounds n rest v) (omega arith)
rounds-all_rounds f k t (w ∷ ws) rest v u =
    let (g, c) = u t (omega arith) (omega arith) in
    let step : Hash = record {
      a = bit_and ((((shift5 v.a + f v.b v.c v.d) + v.e) + w) + k) mask32;
      b = v.a;
      c = shift30 v.b;
      d = v.c;
      e = v.d;
    } in
    (λ i.
      all_rounds (t + 1) (ws ++ rest)
        (record step { a = bit_and ((((shift5 v.a + g v.b v.c v.d i) + v.e) + w) + c i) mask32 }))
    ∙ rounds-all_rounds f k (t + 1) ws rest step
        (λ i p q. u i (omega (arith, p)) (omega (arith, q)))
    ∙ ap (λ n. all_rounds n rest (rounds f k ws step)) (omega arith)

choose-Uniform : Uniform choose 1518500249 0 20
choose-Uniform i p q = rw (lt→ltb i 20 q) (λ b c d. refl, refl)

parity-Uniform : Uniform parity 1859775393 20 20
parity-Uniform i p q = rw (le→ltb i 20 p, lt→ltb i 40 q) (λ b c d. refl, refl)

majority-Uniform : Uniform majority 2400959708 40 20
majority-Uniform i p q =
    rw (le→ltb i 20 (omega (arith, p)), le→ltb i 40 p, lt→ltb i 60 q) (λ b c d. refl, refl)

last-Uniform : Uniform parity 3395469782 60 20
last-Uniform i p q =
    rw (le→ltb i 20 (omega (arith, p)), le→ltb i 40 (omega (arith, p)), le→ltb i 60 p)
      (λ b c d. refl, refl)

-- Words `from` to `from + 20` of the 80, and those behind them.
module _ (w : List ℕ) (eighty : length w ≡ 80) where
  abbrev part : ℕ → List ℕ
  part from = take 20 (drop from w)

  length-part : (from : ℕ) → from ≤ 60 → length (part from) ≡ 20
  length-part from h = omega (arith, eighty, length-take 20 (drop from w), length-drop from w)

  part_split : (from : ℕ) → drop from w ≡ part from ++ drop (from + 20) w
  part_split from =
      sym (take-append-drop 20 (drop from w))
      ∙ ap (λ l. part from ++ l) (drop-drop from 20 (from + 20) w refl)

  one_loop :
      (f : ℕ → ℕ → ℕ → ℕ) (k from : ℕ) (v : Hash)
      → from ≤ 60
      → Uniform f k from 20
      → all_rounds from (drop from w) v
        ≡ all_rounds (from + 20) (drop (from + 20) w) (rounds f k (part from) v)
  one_loop f k from v h u =
      ap (λ l. all_rounds from l v) (part_split from)
      ∙ rounds-all_rounds f k from (part from) (drop (from + 20) w) v
          (λ i p q. u i p (omega (arith, q, length-part from h)))
      ∙ ap (λ n. all_rounds (from + n) (drop (from + 20) w) (rounds f k (part from) v))
          (length-part from h)

  four_loops :
      (v : Hash)
      → all_rounds 0 w v
        ≡ rounds parity 3395469782 (part 60) (
            rounds majority 2400959708
              (part 40)
              (rounds parity 1859775393 (part 20) (rounds choose 1518500249 (part 0) v)))
  unfolding all_rounds
  four_loops v =
      let after = rounds parity 3395469782 (part 60) (
        rounds majority 2400959708 (part 40)
          (rounds parity 1859775393 (part 20) (rounds choose 1518500249 (part 0) v))) in
      one_loop choose 1518500249 0 v (omega arith) choose-Uniform
      ∙ one_loop parity 1859775393 20 _ (omega arith) parity-Uniform
      ∙ one_loop majority 2400959708 40 _ (omega arith) majority-Uniform
      ∙ one_loop parity 3395469782 60 _ (omega arith) last-Uniform
      ∙ ap (λ l. all_rounds 80 l after) (drop-all 80 w (omega (arith, eighty)))

-- The words of a block are those of the standard.
words_of-block_words : (n : ℕ) (bytes : List ℕ) → words_of n bytes ≡ block_words n bytes
unfolding words_of block_words
words_of-block_words zero bytes = refl
words_of-block_words (suc n) bytes =
    ap
      (λ l.
        bit_or
          (bit_or (bit_or (get_or bytes 0 0 * 16777216) (get_or bytes 1 0 * 65536))
            (get_or bytes 2 0 * 256))
          (get_or bytes 3 0)
        ∷ l)
      (words_of-block_words n (drop 4 bytes))

schedule-extend_words : (n t : ℕ) (w : List ℕ) → schedule n t w ≡ extend_words n t w
unfolding schedule extend_words
schedule-extend_words zero t w = refl
schedule-extend_words (suc n) t w = schedule-extend_words n (t + 1) (
    w
    ++ shift1 (
        bit_xor (bit_xor (bit_xor (get_or w (t - 3) 0) (get_or w (t - 8) 0)) (get_or w (t - 14) 0))
          (get_or w (t - 16) 0))
      ∷ [])

-- What `_ProcessMessageBlock` makes of `H` is what the 80 rounds make of it.
pub process-compress :
    (s : Sha1)
    → process_message_block s ≡ record s { hash = compress s.block s.hash; block_index = 0 }
unfolding process_message_block compress
process-compress s =
    let w = extend_words 64 16 (block_words 16 s.block) in
    let eighty =
      length-extend_words 64 16 (block_words 16 s.block)
      ∙ ap (λ n. 64 + n) (length-block_words 16 s.block) in
    let same : schedule 64 16 (words_of 16 s.block) ≡ w =
      schedule-extend_words 64 16 (words_of 16 s.block)
      ∙ ap (extend_words 64 16) (words_of-block_words 16 s.block) in
    ap (λ v. record s { hash = add_hash s.hash v; block_index = 0 })
      (sym (ap (λ l. all_rounds 0 l s.hash) same ∙ four_loops w eighty s.hash))

-- ===== src/Sha/Equivalence.antt =====
-- `_Input` against SHA-1 as RFC 3174 has it.
use network.Prelude.{
  ℕ, zero, suc, ◌≡◌, ◌≤◌, ◌<◌, ◌+◌, ◌-◌, ◌*◌, ◌/◌, ◌%◌, ◌∙◌, refl, ap, sym, true, List, [], ◌∷◌,
  ◌++◌, length, take, drop, arith, length-append, append_assoc, replicate, length-replicate, le→ltb,
  ne→==, eq→==, take-length_append, drop-length_append, take-all, length-set,
}
use native.Mathlib.Decide.{ℕ_discrete, dec_lt}
use network.Sha.{
  Hash, first_hash, Sha1, new_sha1, pad_message, process_message_block, word_bytes, input,
}
use network.Sha.Loop.{AllBytes, Partway, input_loop-flush}
use network.Sha.Reference.{compress, padded, blocks, reference_hash}
use network.Sha.Block.{process-compress}
use network.Sha.Filling.{Holds-full}
use network.Sha.Padding.{process-Holds, pad-short, pad-long, length_bytes}

-- The reference for a message that fits one block with its padding, and for a longer one.
abbrev bit_count : List ℕ → List ℕ
bit_count m = word_bytes 0 ++ word_bytes (8 * length m)

padded-zeros :
    (m : List ℕ) (n : ℕ)
    → length m ≤ 64
    → n ≡ (119 - length m % 64) % 64
    → padded m ≡ m ++ (128 ∷ (replicate n 0 ++ bit_count m))
unfolding padded
padded-zeros m n h e = (λ i.
    m ++ (128 ∷ (replicate (sym e i) 0 ++ (word_bytes (small i) ++ word_bytes (8 * length m)))))
  where
    small : 8 * length m / 4294967296 ≡ 0
    small = omega (arith, h)

one_block : (x : List ℕ) (h : Hash) → length x ≡ 64 → blocks (length x / 64) x h ≡ compress x h
unfolding blocks
one_block x h e =
    ap (λ n. blocks (n / 64) x h) e ∙ ap (λ b. compress b h) (take-all 64 x (omega (arith, e)))

two_blocks :
    (x y : List ℕ) (h : Hash)
    → length x ≡ 64
    → length y ≡ 64
    → blocks (length (x ++ y) / 64) (x ++ y) h ≡ compress y (compress x h)
unfolding blocks
two_blocks x y h e f =
    ap (λ n. blocks (n / 64) (x ++ y) h) {x = length (x ++ y)} {y = 128}
      (omega (arith, length-append x y, e, f))
    ∙ (λ i. compress (second i) (compress (first i) h))
  where
    first : take 64 (x ++ y) ≡ x
    first = ap (λ n. take n (x ++ y)) (sym e) ∙ take-length_append x y

    second : take 64 (drop 64 (x ++ y)) ≡ y
    second =
        ap (take 64) (ap (λ n. drop n (x ++ y)) (sym e) ∙ drop-length_append x y)
        ∙ take-all 64 y (omega (arith, f))

unwrap : (m zeros rest : List ℕ) → m ++ (128 ∷ (zeros ++ rest)) ≡ ((m ++ 128 ∷ []) ++ zeros) ++ rest
unwrap m zeros rest =
    sym (append_assoc m (128 ∷ []) (zeros ++ rest)) ∙ sym (append_assoc (m ++ 128 ∷ []) zeros rest)

length-zeros : (x : List ℕ) (n k : ℕ) → length x + n ≡ k → length (x ++ replicate n 0) ≡ k
length-zeros x n k e =
    omega (arith, e, length-append x (replicate n 0), length-replicate {A = ℕ} n 0)

length-bit_count : (m x : List ℕ) → length x ≡ 56 → length (x ++ bit_count m) ≡ 64
length-bit_count m x e = omega (arith, e, length-append x (bit_count m))

replicate-add : (k n : ℕ) → replicate {A = ℕ} (k + n) 0 ≡ replicate k 0 ++ replicate n 0
unfolding replicate
replicate-add zero n = ap (λ j. replicate {A = ℕ} j 0) (omega arith)
replicate-add (suc k) n =
    ap (λ j. replicate {A = ℕ} j 0) {x = suc k + n} {y = suc (k + n)} (omega arith)
    ∙ ap (◌∷◌ 0) (replicate-add k n)

-- The message stands in the block, or fills it.
module _ (m : List ℕ) (u : Sha1) (p : Partway u first_hash m) where
  counted : length_bytes u ≡ bit_count m
  counted i = word_bytes (p.high i) ++ word_bytes (p.low i)

  length-marked_of : length (m ++ 128 ∷ []) ≡ length m + 1
  length-marked_of = length-append m (128 ∷ [])

  short_message : length m ≤ 55 → (pad_message u).hash ≡ reference_hash m
  unfolding reference_hash
  short_message f =
      let n : ℕ = 56 - length (m ++ 128 ∷ []) in
      let y : List ℕ = (m ++ 128 ∷ []) ++ replicate n 0 in
      let whole : padded m ≡ y ++ bit_count m =
        padded-zeros m n (omega (arith, f)) (omega (arith, f, length-marked_of))
        ∙ unwrap m (replicate n 0) (bit_count m) in
      let size : length (y ++ bit_count m) ≡ 64 =
        length-bit_count m y
          (length-zeros (m ++ 128 ∷ []) n 56 (omega (arith, f, length-marked_of))) in
      pad-short u m p.holds f
      ∙ (λ i. compress (y ++ counted i) (p.same i))
      ∙ sym (
          ap (λ l. blocks (length l / 64) l first_hash) whole
          ∙ one_block (y ++ bit_count m) first_hash size)

  long_message : 55 < length m → length m < 64 → (pad_message u).hash ≡ reference_hash m
  unfolding reference_hash
  long_message f g =
      let n : ℕ = 64 - length (m ++ 128 ∷ []) in
      let x : List ℕ = (m ++ 128 ∷ []) ++ replicate n 0 in
      let y : List ℕ = replicate 56 0 ++ bit_count m in
      let whole : padded m ≡ x ++ y =
        padded-zeros m (n + 56) (omega (arith, f, g)) (omega (arith, f, g, length-marked_of))
        ∙ ap (λ z. m ++ (128 ∷ (z ++ bit_count m))) (replicate-add n 56)
        ∙ ap (λ z. m ++ (128 ∷ z)) (append_assoc (replicate n 0) (replicate 56 0) (bit_count m))
        ∙ unwrap m (replicate n 0) y in
      let size : length x ≡ 64 =
        length-zeros (m ++ 128 ∷ []) n 64 (omega (arith, g, length-marked_of)) in
      pad-long u m p.holds f g
      ∙ (λ i. compress (replicate 56 0 ++ counted i) (compress x (p.same i)))
      ∙ sym (
          ap (λ l. blocks (length l / 64) l first_hash) whole
          ∙ two_blocks x y first_hash size
              (length-bit_count m (replicate 56 0) (length-replicate {A = ℕ} 56 0)))

  full_message : length m ≡ 64 → (pad_message (process_message_block u)).hash ≡ reference_hash m
  unfolding reference_hash
  full_message f =
      let v : Sha1 = process_message_block u in
      let y : List ℕ = (128 ∷ []) ++ replicate 55 0 in
      let after = process-compress u in
      let whole : padded m ≡ m ++ (y ++ bit_count m) =
        padded-zeros m 55 (omega (arith, f)) (omega (arith, f)) in
      pad-short v [] (process-Holds u m p.holds) (omega arith)
      ∙ (λ i.
          compress (y ++ (word_bytes (after i).length_high ++ word_bytes (after i).length_low))
            (after i).hash)
      ∙ (λ i. compress (y ++ counted i) (compress (Holds-full u m p.holds f i) (p.same i)))
      ∙ sym (
          ap (λ l. blocks (length l / 64) l first_hash) whole
          ∙ two_blocks m (y ++ bit_count m) first_hash f
              (length-bit_count m y (length-zeros (128 ∷ []) 55 56 refl)))

fresh-Partway : (memory : List ℕ) → length memory ≡ 64 → Partway (new_sha1 memory) first_hash []
unfolding new_sha1
fresh-Partway memory e = record {
  holds = record { storage = length-set memory 0 0 ∙ e; index = refl; front = refl };
  low = refl;
  high = refl;
  same = refl;
}

-- For a message of 1 to 64 bytes and a new SHA1 object (whatever its block's 64 bytes of memory
-- hold) `_Input` answers true, and `H` is then the SHA-1 of the message as RFC 3174 has it, by
-- definitions of its own: octets to words, the schedule of 80 words, the functions and constants
-- of the four rounds, and the sum.
pub input-reference_hash :
    (m memory : List ℕ)
    → length memory ≡ 64
    → AllBytes m
    → 0 < length m
    → length m ≤ 64
    → let (fine, s) = input m (new_sha1 memory) in (fine ≡ true) × (s.hash ≡ reference_hash m)
unfolding input
input-reference_hash m memory e small f g =
    let (u, loop, p) =
      input_loop-flush m (new_sha1 memory) first_hash [] small (fresh-Partway memory e)
        (omega arith) (omega (arith, g)) in
    rw (ne→== (length m) 0 (omega (arith, f)), le→ltb 64 (length m) g, loop)
      (
        refl,
        elim (ℕ_discrete (length m) 64) [
          | yes full ↦
              rw (eq→== u.block_index 64 (omega (arith, p.holds.index, full)))
                (full_message m u p full)
          | no less ↦
              rw (ne→== u.block_index 64 (omega (arith, p.holds.index, less)))
                (elim (dec_lt 55 (length m)) [
                  | yes long ↦ long_message m u p long (omega (arith, g, less))
                  | no short ↦ short_message m u p (omega (arith, short))
                ])
        ],
      )

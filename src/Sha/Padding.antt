-- ===== src/Sha/Padding.antt =====
-- `_PadMessage`: the last block, or the last two.
use network.Prelude.{
  ℕ, ◌≡◌, ◌≤◌, ◌<◌, ◌+◌, ◌-◌, ◌∙◌, refl, ap, sym, subst, List, [], ◌∷◌, ◌++◌, length, take, arith,
  length-append, take-all, replicate, length-replicate, lt→ltb, le→ltb,
}
use network.Sha.{
  Sha1, put_byte, zeros_until, put_bytes, pad_message, process_message_block, word_bytes,
}
use network.Sha.Reference.{compress}
use network.Sha.Block.{process-compress}
use network.Sha.Filling.{Holds, put-Holds, zeros-Holds, zeros-hash, Holds-full, put_bytes-front}

abbrev pub length_bytes : Sha1 → List ℕ
length_bytes s = word_bytes s.length_high ++ word_bytes s.length_low

-- A block is emptied by processing it.
pub process-Holds :
    (s : Sha1) (written : List ℕ) → Holds s written → Holds (process_message_block s) []
process-Holds s written h =
    subst (λ t. Holds t []) (sym (process-compress s))
      (record { storage = h.storage; index = refl; front = refl })

-- The end of `_PadMessage`: the length, and the last block.
last_block :
    (t : Sha1) (written : List ℕ)
    → Holds t written
    → length written ≡ 56
    → (process_message_block (record t { block = put_bytes (length_bytes t) 56 t.block })).hash
      ≡ compress (written ++ length_bytes t) t.hash
last_block t written h e =
    let u : Sha1 = record t { block = put_bytes (length_bytes t) 56 t.block } in
    let (l, f) = put_bytes-front (length_bytes t) 56 t.block written (omega (arith, h.storage)) (
      ap (λ n. take n t.block) {x = 56} {y = t.block_index} (omega (arith, h.index, e))
      ∙ h.front) in
    let whole : u.block ≡ written ++ length_bytes t =
      sym (take-all 64 u.block (omega (arith, l, h.storage))) ∙ f in
    ap (λ s. s.hash) (process-compress u) ∙ ap (λ b. compress b t.hash) whole

-- `zeros_until` writes what is missing.
until-Holds :
    (bound : ℕ) (s : Sha1) (written : List ℕ)
    → Holds s written
    → length written ≤ bound
    → bound ≤ 64
    → Holds (zeros_until bound s) (written ++ replicate (bound - length written) 0)
until-Holds bound s written h f g =
    subst (λ n. Holds (zeros_until bound s) (written ++ replicate (bound - n) 0)) h.index
      (zeros-Holds (bound - s.block_index) s written h (omega (arith, h.index, f, g)))

length-until :
    (bound : ℕ) (written : List ℕ)
    → length written ≤ bound
    → length (written ++ replicate (bound - length written) 0) ≡ bound
length-until bound written f = omega (
  arith,
  f,
  length-append written (replicate (bound - length written) 0),
  length-replicate {A = ℕ} (bound - length written) 0,
)

zeros_held : (p : Sha1) → Holds p [] → Holds (zeros_until 56 p) (replicate 56 0)
zeros_held p h = until-Holds 56 p [] h (omega arith) (omega arith)

-- What stands before the length bytes, and what was processed before.
module _ (s : Sha1) (written : List ℕ) (h : Holds s written) where
  abbrev pub marked : List ℕ
  marked = written ++ 128 ∷ []

  pub length-marked : length marked ≡ length written + 1
  length-marked = length-append written (128 ∷ [])

  pub pad-short :
      length written ≤ 55
      → (pad_message s).hash
        ≡ compress ((marked ++ replicate (56 - length marked) 0) ++ length_bytes s) s.hash
  unfolding pad_message
  pad-short f =
      let put = put-Holds s written 128 h (omega (arith, f)) in
      let t = zeros_until 56 (put_byte 128 s) in
      let (same_hash, same_low, same_high) =
        zeros-hash (56 - (put_byte 128 s).block_index) (put_byte 128 s) in
      let held =
        until-Holds 56 (put_byte 128 s) marked put (omega (arith, f, length-marked))
          (omega arith) in
      rw (le→ltb 55 s.block_index (omega (arith, f, h.index))) (
        last_block t (marked ++ replicate (56 - length marked) 0) held
          (length-until 56 marked (omega (arith, f, length-marked)))
        ∙ (λ i.
            compress
              ((marked ++ replicate (56 - length marked) 0)
                ++ (word_bytes (same_high i) ++ word_bytes (same_low i)))
              (same_hash i)))

  pub pad-long :
      55 < length written
      → length written < 64
      → (pad_message s).hash
        ≡ compress
            (replicate 56 0 ++ length_bytes s)
            (compress (marked ++ replicate (64 - length marked) 0) s.hash)
  unfolding pad_message
  pad-long f g =
      let put = put-Holds s written 128 h g in
      let u = zeros_until 64 (put_byte 128 s) in
      let p = process_message_block u in
      let t = zeros_until 56 p in
      let fits : length marked ≤ 64 = omega (arith, g, length-marked) in
      let (first_hash, first_low, first_high) =
        zeros-hash (64 - (put_byte 128 s).block_index) (put_byte 128 s) in
      let held = until-Holds 64 (put_byte 128 s) marked put fits (omega arith) in
      let whole = Holds-full u _ held (length-until 64 marked fits) in
      let emptied = process-Holds u _ held in
      let (same_hash, same_low, same_high) = zeros-hash (56 - p.block_index) p in
      let processed = process-compress u in
      let high : t.length_high ≡ s.length_high =
        same_high ∙ ap (λ v. v.length_high) processed ∙ first_high in
      let low : t.length_low ≡ s.length_low =
        same_low ∙ ap (λ v. v.length_low) processed ∙ first_low in
      let hash : t.hash ≡ compress (marked ++ replicate (64 - length marked) 0) s.hash =
        same_hash ∙ ap (λ v. v.hash) processed ∙ (λ i. compress (whole i) (first_hash i)) in
      rw (lt→ltb 55 s.block_index (omega (arith, f, h.index))) (
        last_block t (replicate 56 0) (zeros_held p emptied) (length-replicate {A = ℕ} 56 0)
        ∙ (λ i. compress (replicate 56 0 ++ (word_bytes (high i) ++ word_bytes (low i))) (hash i)))

-- ===== src/Sha/Loop.antt =====
-- The loop of `_Input`: the message stands in the block, or fills it.
use network.Prelude.{
  ℕ, ◌≡◌, ◌≤◌, ◌<◌, ◌+◌, ◌*◌, refl, sym, subst, true, false, List, [], ◌∷◌, ◌++◌, length, arith,
  length-append, append_assoc, ne→==, if◌then◌else◌, ◌==◌, append-nil,
}
use network.Sha.{Hash, Sha1, put_byte, process_message_block, input_byte, input_loop}
use network.Sha.Filling.{Holds, put-Holds, byte_mask, length_mask}

abbrev pub AllBytes : List ℕ → Type 0
AllBytes [] = Unit {0}
AllBytes (b ∷ bs) = (b < 256) × AllBytes bs

-- A state in which `written` is all that has come so far, less than a block.
pub record Partway (s : Sha1) (hash : Hash) (written : List ℕ) : Type 0 where
  pub holds : Holds s written
  pub low : s.length_low ≡ 8 * length written
  pub high : s.length_high ≡ 0
  pub same : s.hash ≡ hash

abbrev pub flush : Sha1 → Sha1
flush u = if u.block_index == 64 then process_message_block u else u

-- One byte: it is written, and a full block is processed.
abbrev taken : ℕ → Sha1 → Sha1
taken b s = record (put_byte b s) { length_low = s.length_low + 8 }

input_byte-taken :
    (b : ℕ) (s : Sha1) (hash : Hash) (written : List ℕ)
    → b < 256
    → Partway s hash written
    → length written < 64
    → (input_byte b s ≡ (true, flush (taken b s))) × Partway (taken b s) hash (written ++ b ∷ [])
unfolding input_byte
input_byte-taken b s hash written small p f =
    let mask = length_mask (s.length_low + 8) (omega (arith, p.low, f)) in
    let more : (s.length_low + 8 == 0) ≡ false = ne→== (s.length_low + 8) 0 (omega arith) in
    (
      rw (mask, byte_mask b small, more) refl,
      record {
        holds =
            let h = put-Holds s written b p.holds f in
            record { storage = h.storage; index = h.index; front = h.front };
        low = omega (arith, p.low, length-append written (b ∷ []));
        high = p.high;
        same = p.same;
      },
    )

-- The loop of `_Input`, which flushes only a block that the whole message fills.
pub input_loop-flush :
    (bs : List ℕ) (s : Sha1) (hash : Hash) (written : List ℕ)
    → AllBytes bs
    → Partway s hash written
    → length written < 64
    → length written + length bs ≤ 64
    → (u : Sha1) × (input_loop bs s ≡ (true, flush u)) × Partway u hash (written ++ bs)
unfolding input_loop
input_loop-flush [] s hash written small p f g = (
  s,
  rw (ne→== s.block_index 64 (omega (arith, p.holds.index, f))) refl,
  subst (Partway s hash) (sym (append-nil written)) p,
)
input_loop-flush (b ∷ []) s hash written small p f g =
    let (step, q) = input_byte-taken b s hash written small.0 p f in (taken b s, rw step refl, q)
input_loop-flush (b ∷ c ∷ bs) s hash written small p f g =
    let (step, q) = input_byte-taken b s hash written small.0 p f in
    let n = length-append written (b ∷ []) in
    let (u, e, r) =
      input_loop-flush (c ∷ bs) (taken b s) hash (written ++ b ∷ []) small.1 q (omega (arith, g, n))
        (omega (arith, g, n)) in
    (
      u,
      rw (step, ne→== (s.block_index + 1) 64 (omega (arith, p.holds.index, g))) e,
      subst (Partway u hash) (append_assoc written (b ∷ []) (c ∷ bs)) r,
    )

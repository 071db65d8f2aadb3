-- ===== src/Pool/Filling.antt =====
-- The cutting of a node and a new block keep the invariant.
use network.Prelude.{
  ℕ, ◌≡◌, ◌≢◌, ◌≤◌, ◌+◌, ◌∙◌, refl, ap, true, false, Bool, Option, none, arith, Bool-cases, inl,
  inr,
}
use network.Pool.{MemoryPool, alloc_size, node_size, update, new_buffer, cut_node}
use network.Pool.Regions.{Separate, cut-Regions, buffer-Regions}
use network.Pool.Moves.{push-IsGood}
use network.Pool.Places.{Use, Inv, Agree, Held-Agree, update_self, update_other, not_cut, IsGood}

module _ {base : ℕ → ℕ} {use_of : ℕ → Use} where
  -- What is left of a thread's block has not been cut.
  uncut :
      {holder : ℕ → Option (ℕ × ℕ)} {cut : ℕ → Bool} {p : MemoryPool} (t size : ℕ)
      → Inv base use_of holder cut p
      → p.pops t + (size + node_size) ≤ alloc_size
      → cut (p.bufs t + p.pops t) ≡ false
  uncut {cut} {p} t size i h = elim (Bool-cases (cut (p.bufs t + p.pops t))) [
    | inl y ↦ let c = i.regions.clear t (p.bufs t + p.pops t) y in absurd (ground (arith, h))
    | inr z ↦ z
  ]

  pub cut_node-IsGood :
      {p : MemoryPool} (t size : ℕ)
      → IsGood base use_of p
      → p.pops t + (size + node_size) ≤ alloc_size
      → IsGood base use_of (cut_node t size p)
  unfolding cut_node
  cut_node-IsGood {p} t size g h =
      let i = g.inv in
      let n : ℕ = p.bufs t + p.pops t in
      let free = uncut t size i h in
      let holder' = update g.holder n none in
      let cut' = update g.cut n true in
      let size_of' = update p.size_of n size in
      let agree : Agree n g.holder holder' g.cut cut' p.size_of size_of' p.thread_of p.thread_of =
        record {
          holders = λ x ne. update_other g.holder n x none ne;
          sizes = λ x ne. update_other p.size_of n x size ne;
          threads = λ x ne. refl;
          cuts = λ x ne. update_other g.cut n x true ne;
        } in
      push-IsGood t (record {
        holder = holder';
        cut = cut';
        inv = record {
          regions = cut-Regions base t size i.regions h;
          lists = λ u v.
              Held-Agree n agree u v (p.stacks u v)
                (not_cut g.holder g.cut p.size_of p.thread_of n u v (p.stacks u v) free
                  (i.lists u v))
                (i.lists u v);
          used = λ x k q.
              let (a, b, c, d) = i.used x k q in
              let ne : x ≢ n = λ y. cc (c, ap g.cut y, free) in
              (
                update_other g.holder n x none ne ∙ a,
                update_other p.size_of n x size ne ∙ b,
                update_other g.cut n x true ne ∙ c,
                d,
              );
          returned = i.returned;
        };
        loose = record {
          no_holder = update_self g.holder n none;
          size = update_self p.size_of n size;
          is_cut = update_self g.cut n true;
          unused = λ k q. cc ((i.used n k q).2, free);
        };
      })

  pub new_buffer-IsGood :
      {p : MemoryPool} (t : ℕ)
      → Separate base
      → IsGood base use_of p
      → IsGood base use_of (new_buffer t (base p.mallocs) p)
  unfolding new_buffer
  new_buffer-IsGood t far g = record {
    holder = g.holder;
    cut = g.cut;
    inv = record {
      regions = buffer-Regions base t far g.inv.regions;
      lists = g.inv.lists;
      used = g.inv.used;
      returned = g.inv.returned;
    };
  }

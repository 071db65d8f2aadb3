-- ===== src/Pool/Handing.antt =====
-- Fill leaves a node on the stack, and what Allocate hands out.
use network.Prelude.{
  ℕ, zero, suc, ◌≡◌, ◌≤◌, ◌<◌, ◌+◌, ◌-◌, ◌∙◌, refl, ap, subst, true, false, Bool, Option, none,
  some, List, [], ◌∷◌, ltb, leb, ltb→le, arith, Bool-cases, inl, inr, ◌⊎◌, eq→==,
}
use network.Pool.{
  MemoryPool, max_size, alloc_size, node_size, update, update_stack, push, pop, pop_from,
  new_buffer, cut_node, fill_turn, fill_loop, fill, allocate_loop,
}
use network.Pool.Regions.{Apart, IsWithin, Separate}
use network.Pool.Places.{Use, using, update_self, IsGood}
use network.Pool.Moves.{mark-IsGood, push-IsGood, pop-HasLoose}
use network.Pool.Filling.{cut_node-IsGood, new_buffer-IsGood}

pub lt→leb : (s : ℕ) → s < max_size → leb max_size s ≡ false
lt→leb s h = ground arith

pub le→leb : (s : ℕ) → max_size ≤ s → leb max_size s ≡ true
le→leb s h = ground arith

-- A stack is empty, or has a node on top.
stack_cases : (ns : List ℕ) → (ns ≡ []) ⊎ ((n : ℕ) × (ms : List ℕ) × (ns ≡ n ∷ ms))
stack_cases [] = inl refl
stack_cases (n ∷ ms) = inr (n, ms, refl)

pop_empty : (t s : ℕ) (p : MemoryPool) → p.stacks t s ≡ [] → pop t s p ≡ (none, p)
unfolding pop
pop_empty t s p e = ap (λ ns. pop_from t s ns p) e

pop_top :
    (t s n : ℕ) (ns : List ℕ) (p : MemoryPool)
    → p.stacks t s ≡ n ∷ ns
    → pop t s p ≡ (some n, record p { stacks = update_stack p.stacks t s ns })
unfolding pop
pop_top t s n ns p e = ap (λ ns. pop_from t s ns p) e

push_top : (t s n : ℕ) (p : MemoryPool) → (push t s n p).stacks t s ≡ n ∷ p.stacks t s
unfolding push
push_top t s n p = rw (eq→== t t refl) (rw (eq→== s s refl) refl)

cut_node_top :
    (t s : ℕ) (p : MemoryPool) → (cut_node t s p).stacks t s ≡ (p.bufs t + p.pops t) ∷ p.stacks t s
unfolding cut_node push
cut_node_top t s p = rw (eq→== t t refl) (rw (eq→== s s refl) refl)

-- What Allocate answers where malloc does not fail: a node within one of the blocks of malloc, with room for
-- the header and `s` bytes, which is apart from all that is in use.
pub record Handed (base : ℕ → ℕ) (use_of : ℕ → Use) (s : ℕ) (r : Option (Option ℕ × MemoryPool))
    : Type 0 where
  pub node : ℕ
  pub after : MemoryPool
  pub result : r ≡ some (some node, after)
  pub within : IsWithin base after.mallocs node s
  pub apart : (m l : ℕ) → use_of m ≡ using l → Apart node s m l

module _ (base : ℕ → ℕ) (use_of : ℕ → Use) (far : Separate base) (t s : ℕ) where
  -- What Fill leaves: the invariant, and a node on the thread's stack.
  record Filled (r : Bool × MemoryPool) : Type 0 where
    fine : r.0 ≡ true
    good : IsGood base use_of r.1
    node : ℕ
    others : List ℕ
    top : r.1.stacks t s ≡ node ∷ others

  abbrev malloc : ℕ → Option ℕ
  malloc i = some (base i)

  cut-Filled :
      (p : MemoryPool)
      → IsGood base use_of p
      → p.pops t + (s + node_size) ≤ alloc_size
      → Filled (true, cut_node t s p)
  cut-Filled p g h = record {
    fine = refl;
    good = cut_node-IsGood t s g h;
    node = p.bufs t + p.pops t;
    others = p.stacks t s;
    top = cut_node_top t s p;
  }

  fresh_buffer :
      (p : MemoryPool)
      → s < max_size
      → (new_buffer t (base p.mallocs) p).pops t + (s + node_size) ≤ alloc_size
  unfolding new_buffer
  fresh_buffer p h = rw (update_self p.pops t 0) (omega (arith, h))

  fill_turn-Filled :
      (p : MemoryPool) → IsGood base use_of p → s < max_size → Filled (fill_turn malloc t s p)
  unfolding fill_turn
  fill_turn-Filled p g h = elim (stack_cases (p.stacks 0 s)) [
    | inr (n, ns, e) ↦
        let p' = record p { stacks = update_stack p.stacks 0 s ns } in
        rw (pop_top 0 s n ns p e, fill_turn)
          (rw (pop_top 0 s n ns p e) (record {
            fine = refl;
            good = push-IsGood t (pop-HasLoose 0 s n ns g e);
            node = n;
            others = p'.stacks t s;
            top = push_top t s n p';
          }))
    | inl e ↦
        rw (pop_empty 0 s p e, fill_turn)
          (elim (Bool-cases (ltb (alloc_size - p.pops t) (s + node_size))) [
            | inl y ↦ rw y (
                cut-Filled (new_buffer t (base p.mallocs) p) (new_buffer-IsGood t far g)
                  (fresh_buffer p h))
            | inr z ↦ rw z (
                cut-Filled p g (
                  omega (
                    arith,
                    ltb→le (alloc_size - p.pops t) (s + node_size) z,
                    g.inv.regions.bound t,
                  )))
          ])
  ]

  fill_loop-Filled :
      (n : ℕ) (p : MemoryPool)
      → IsGood base use_of p
      → s < max_size
      → Filled (fill_loop malloc (suc n) t s p)
  unfolding fill_loop
  fill_loop-Filled zero p g h =
      let f = fill_turn-Filled p g h in
      rw f.fine
        (record { fine = refl; good = f.good; node = f.node; others = f.others; top = f.top })
  fill_loop-Filled (suc n) p g h =
      let f = fill_turn-Filled p g h in
      rw f.fine (fill_loop-Filled n (fill_turn malloc t s p).1 f.good h)

  pub record HandedGood (r : Option (Option ℕ × MemoryPool)) : Type 0 where
    pub handed : Handed base use_of s r
    pub good : IsGood base (update use_of handed.node (using s)) handed.after

  taken-Handed :
      (fuel n : ℕ) (ns : List ℕ) (p : MemoryPool)
      → IsGood base use_of p
      → s < max_size
      → p.stacks t s ≡ n ∷ ns
      → HandedGood (allocate_loop malloc (suc fuel) t s p)
  unfolding allocate_loop
  taken-Handed fuel n ns p g h e =
      let g' = pop-HasLoose t s n ns g e in
      let p' = record p { stacks = update_stack p.stacks t s ns } in
      let r = g'.inv.regions in
      rw (pop_top t s n ns p e, allocate_loop)
        (rw (pop_top t s n ns p e) (record {
          handed = record {
            node = n;
            after = record p' { thread_of = update p'.thread_of n t };
            result = refl;
            within = subst (IsWithin base p.mallocs n) g'.loose.size (r.within n g'.loose.is_cut);
            apart = λ m l u.
                let (a, b, c, _) = g'.inv.used m l u in
                let d = r.apart n m g'.loose.is_cut c (λ q. g'.loose.unused l (ap use_of q ∙ u)) in
                ground (arith, g'.loose.size, b);
          };
          good = mark-IsGood t h g';
        }))

  pub allocate_loop-Handed :
      (p : MemoryPool)
      → IsGood base use_of p
      → s < max_size
      → HandedGood (allocate_loop malloc 2 t s p)
  unfolding allocate_loop fill
  allocate_loop-Handed p g h = elim (stack_cases (p.stacks t s)) [
    | inr (n, ns, e) ↦ taken-Handed 1 n ns p g h e
    | inl e ↦
        let f = fill_loop-Filled 31 p g h in
        rw (pop_empty t s p e, allocate_loop)
          (rw f.fine (taken-Handed 0 f.node f.others (fill_loop malloc 32 t s p).1 f.good h f.top))
  ]

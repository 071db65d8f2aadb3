-- ===== src/Pool/Safety.antt =====
-- The pool in use: Allocate and Deallocate, in any order.
use network.Prelude.{
  ℕ, ◌≡◌, ◌≤◌, ◌<◌, ◌∙◌, refl, sym, subst, false, Option, none, some, ◌==◌, leb, leb→gt, leb→le,
  arith, Bool-cases, inl, inr, ==→eq, eq→==,
}
use network.Pool.{MemoryPool, new_memory_pool, max_size, update, push, allocate, deallocate}
use network.Pool.Regions.{Separate}
use network.Pool.Places.{Use, never, using, returned, update_self, IsGood}
use network.Pool.Moves.{push-IsGood, give_back-HasLoose, returned-IsGood}
use network.Pool.Handing.{lt→leb, le→leb, Handed, HandedGood, allocate_loop-Handed}

push_thread : (t s n : ℕ) (p : MemoryPool) → (push t s n p).thread_of n ≡ 0
unfolding push
push_thread t s n p = update_self p.thread_of n 0

deallocate-IsGood :
    {base : ℕ → ℕ} (use_of : ℕ → Use) (t n s : ℕ) (p : MemoryPool)
    → IsGood base use_of p
    → use_of n ≡ using s
    → IsGood base (update use_of n returned) (deallocate t n p)
unfolding deallocate
deallocate-IsGood {base} use_of t n s p g e =
    let loose = give_back-HasLoose g e in
    let back = λ (u : ℕ). returned-IsGood use_of n (push-IsGood u loose) (push_thread u s n p) in
    let (_, z, _, small) = g.inv.used n s e in
    elim (Bool-cases (p.thread_of n == 0)) [
      | inl y ↦ rw y (
          returned-IsGood use_of n
            (record { holder = loose.holder; cut = loose.cut; inv = loose.inv })
            (==→eq (p.thread_of n) 0 y))
      | inr y ↦ rw y (
          rw z (
            rw (lt→leb s small) (elim (Bool-cases (p.thread_of n == t)) [
              | inl w ↦ rw w (back t)
              | inr w ↦ rw w (back 0)
            ])))
    ]

deallocate-returned : (t n : ℕ) (p : MemoryPool) → p.thread_of n ≡ 0 → deallocate t n p ≡ p
unfolding deallocate
deallocate-returned t n p h = rw (eq→== (p.thread_of n) 0 h) refl

-- Calls of Allocate and Deallocate, one after the other, and what is in use after them. A node may be
-- given back again, as long as it has not been handed out anew.
pub data Reach (base : ℕ → ℕ) : (ℕ → Use) → MemoryPool → Type 0 where
  start : Reach base (λ n. never) new_memory_pool
  allocated :
      {use_of : ℕ → Use} {p p' : MemoryPool} (t s n : ℕ)
      → Reach base use_of p
      → 0 < t
      → allocate (λ i. some (base i)) t s p ≡ some (some n, p')
      → Reach base (update use_of n (using s)) p'
  refused :
      {use_of : ℕ → Use} {p p' : MemoryPool} (t s : ℕ)
      → Reach base use_of p
      → 0 < t
      → allocate (λ i. some (base i)) t s p ≡ some (none, p')
      → Reach base use_of p'
  given_back :
      {use_of : ℕ → Use} {p : MemoryPool} (t n s : ℕ)
      → Reach base use_of p
      → 0 < t
      → use_of n ≡ using s
      → Reach base (update use_of n returned) (deallocate t n p)
  given_again :
      {use_of : ℕ → Use} {p : MemoryPool} (t n : ℕ)
      → Reach base use_of p
      → 0 < t
      → use_of n ≡ returned
      → Reach base use_of (deallocate t n p)

new_memory_pool-IsGood : (base : ℕ → ℕ) → IsGood base (λ n. never) new_memory_pool
new_memory_pool-IsGood base = record {
  holder = λ n. none;
  cut = λ n. false;
  inv = record {
    regions = record {
      apart = λ n l a b ne. cc a;
      within = λ n a. cc a;
      bound = λ t. omega arith;
      source = λ t. inl refl;
      clear = λ t n a. cc a;
      distinct = λ t u ne. inl refl;
    };
    lists = λ t s. tt;
    used = λ n s e. cc e;
    returned = λ n e. cc e;
  };
}

module _ {base : ℕ → ℕ} (far : Separate base) where
  allocate_large :
      (malloc : ℕ → Option ℕ) (t s : ℕ) (p : MemoryPool)
      → max_size ≤ s
      → allocate malloc t s p ≡ some (none, p)
  unfolding allocate
  allocate_large malloc t s p h = rw (le→leb s h) refl

  small_Handed :
      {use_of : ℕ → Use} {p : MemoryPool} (t s : ℕ)
      → IsGood base use_of p
      → s < max_size
      → HandedGood base use_of far t s (allocate (λ i. some (base i)) t s p)
  unfolding allocate
  small_Handed {use_of} {p} t s g h =
      rw (lt→leb s h) (allocate_loop-Handed base use_of far t s p g h)

  Reach-IsGood : {use_of : ℕ → Use} {p : MemoryPool} → Reach base use_of p → IsGood base use_of p
  Reach-IsGood start = new_memory_pool-IsGood base
  Reach-IsGood (allocated {use_of} {p} {p'} t s n r z e) = elim (Bool-cases (leb max_size s)) [
    | inl y ↦
        let large = allocate_large (λ i. some (base i)) t s p (leb→le max_size s y) in cc (large, e)
    | inr y ↦
        let h = small_Handed t s (Reach-IsGood r) (leb→gt max_size s y) in
        let both : some (some h.handed.node, h.handed.after) ≡ some (some n, p') =
          sym h.handed.result ∙ e in
        let node : h.handed.node ≡ n = cc both in
        let after : h.handed.after ≡ p' = cc both in
        subst (λ m. IsGood base (update use_of m (using s)) p') node
          (subst (IsGood base (update use_of h.handed.node (using s))) after h.good)
  ]
  Reach-IsGood (refused {use_of} {p} {p'} t s r z e) = elim (Bool-cases (leb max_size s)) [
    | inl y ↦
        let large = allocate_large (λ i. some (base i)) t s p (leb→le max_size s y) in
        let same : p ≡ p' = cc (large, e) in subst (IsGood base use_of) same (Reach-IsGood r)
    | inr y ↦
        let h = small_Handed t s (Reach-IsGood r) (leb→gt max_size s y) in cc (h.handed.result, e)
  ]
  Reach-IsGood (given_back {use_of} {p} t n s r z e) =
      deallocate-IsGood use_of t n s p (Reach-IsGood r) e
  Reach-IsGood (given_again {use_of} {p} t n r z e) =
      let g = Reach-IsGood r in
      subst (IsGood base use_of) (sym (deallocate-returned t n p (g.inv.returned n e))) g

  -- If malloc does not fail and its blocks do not overlap, then after any calls of Allocate and
  -- Deallocate by any threads on a new pool, where only nodes are given back that are in use, or
  -- that were given back and not handed out anew since, Allocate with fewer than 65535 bytes
  -- answers a node that lies, with its header and as many bytes, within a block of malloc, apart
  -- from every node in use.
  pub Reach-allocate :
      {use_of : ℕ → Use} {p : MemoryPool} (t s : ℕ)
      → Reach base use_of p
      → s < max_size
      → Handed base use_of s (allocate (λ i. some (base i)) t s p)
  Reach-allocate t s r h = (small_Handed t s (Reach-IsGood r) h).handed

-- ===== src/Pool/Moves.antt =====
-- Push and Pop keep the invariant, and so do handing out and giving back.
use network.Prelude.{
  ℕ, ◌≡◌, ◌<◌, ◌∙◌, refl, sym, ap, subst, none, some, List, ◌∷◌, ◌==◌, arith, Bool-cases, inl, inr,
  ==→eq, ==→ne,
}
use network.Pool.{max_size, MemoryPool, update, update_stack, push}
use network.Pool.Places.{
  Use, never, using, returned, Held, Agree, Held-Agree, update_self, update_other, not-Held,
  update_stack-all, IsGood, HasLoose,
}

module _ {base : ℕ → ℕ} {use_of : ℕ → Use} where
  pub push-IsGood :
      {p : MemoryPool} {n s : ℕ} (t : ℕ)
      → HasLoose base use_of p n s
      → IsGood base use_of (push t s n p)
  unfolding push
  push-IsGood {p} {n} {s} t g =
      let i = g.inv in
      let l = g.loose in
      let holder' = update g.holder n (some (t, s)) in
      let thread_of' = update p.thread_of n 0 in
      let agree : Agree n g.holder holder' g.cut g.cut p.size_of p.size_of p.thread_of thread_of' =
        record {
          holders = λ x ne. update_other g.holder n x (some (t, s)) ne;
          sizes = λ x ne. refl;
          threads = λ x ne. update_other p.thread_of n x 0 ne;
          cuts = λ x ne. refl;
        } in
      let out = λ (u v : ℕ).
        not-Held g.holder g.cut p.size_of p.thread_of n u v (p.stacks u v)
          (λ e. cc (e, l.no_holder)) (i.lists u v) in
      record {
        holder = holder';
        cut = g.cut;
        inv = record {
          regions = i.regions;
          lists =
              update_stack-all (λ u v ns. Held holder' g.cut p.size_of thread_of' u v ns) p.stacks t
                s (n ∷ p.stacks t s)
                (
                  update_self g.holder n (some (t, s)),
                  l.size,
                  update_self p.thread_of n 0,
                  l.is_cut,
                  out t s,
                  Held-Agree n agree t s (p.stacks t s) (out t s) (i.lists t s),
                )
                (λ u v ne. Held-Agree n agree u v (p.stacks u v) (out u v) (i.lists u v));
          used = λ x k e.
              let (a, b, c, d) = i.used x k e in
              (
                update_other g.holder n x (some (t, s)) (λ q. l.unused k (ap use_of (sym q) ∙ e))
                    ∙ a,
                b,
                c,
                d,
              );
          returned = λ x e. elim (Bool-cases (x == n)) [
            | inl y ↦ rw y refl
            | inr z ↦ rw z (i.returned x e)
          ];
        };
      }

  pub pop-HasLoose :
      {p : MemoryPool} (t s n : ℕ) (ns : List ℕ)
      → IsGood base use_of p
      → p.stacks t s ≡ n ∷ ns
      → HasLoose base use_of (record p { stacks = update_stack p.stacks t s ns }) n s
  pop-HasLoose {p} t s n ns g e =
      let i = g.inv in
      let (h, z, f, c, d, r) =
        subst (Held g.holder g.cut p.size_of p.thread_of t s) e (i.lists t s) in
      let holder' = update g.holder n none in
      let agree : Agree n g.holder holder' g.cut g.cut p.size_of p.size_of p.thread_of p.thread_of =
        record {
          holders = λ x ne. update_other g.holder n x none ne;
          sizes = λ x ne. refl;
          threads = λ x ne. refl;
          cuts = λ x ne. refl;
        } in
      record {
        holder = holder';
        cut = g.cut;
        inv = record {
          regions = i.regions;
          lists =
              update_stack-all (λ u v ms. Held holder' g.cut p.size_of p.thread_of u v ms) p.stacks
                t s ns (Held-Agree n agree t s ns d r)
                (λ u v ne.
                  Held-Agree n agree u v (p.stacks u v)
                    (not-Held g.holder g.cut p.size_of p.thread_of n u v (p.stacks u v)
                      (λ q. ne (cc (q, h), cc (q, h))) (i.lists u v))
                    (i.lists u v));
          used = λ x k q.
              let (a, b, c', d') = i.used x k q in
              (update_other g.holder n x none (λ y. cc (ap g.holder y, a, h)) ∙ a, b, c', d');
          returned = i.returned;
        };
        loose = record {
          no_holder = update_self g.holder n none;
          size = z;
          is_cut = c;
          unused = λ k q. cc ((i.used n k q).0, h);
        };
      }

  -- A loose node gets the id of a thread and is in use.
  pub mark-IsGood :
      {p : MemoryPool} {n s : ℕ} (t : ℕ)
      → s < max_size
      → HasLoose base use_of p n s
      → IsGood base (update use_of n (using s)) (record p { thread_of = update p.thread_of n t })
  mark-IsGood {p} {n} {s} t small g =
      let i = g.inv in
      let l = g.loose in
      let thread_of' = update p.thread_of n t in
      let agree : Agree n g.holder g.holder g.cut g.cut p.size_of p.size_of p.thread_of thread_of' =
        record {
          holders = λ x ne. refl;
          sizes = λ x ne. refl;
          threads = λ x ne. update_other p.thread_of n x t ne;
          cuts = λ x ne. refl;
        } in
      record {
        holder = g.holder;
        cut = g.cut;
        inv = record {
          regions = i.regions;
          lists = λ u v.
              Held-Agree n agree u v (p.stacks u v)
                (not-Held g.holder g.cut p.size_of p.thread_of n u v (p.stacks u v)
                  (λ e. cc (e, l.no_holder)) (i.lists u v))
                (i.lists u v);
          used = λ x k e. elim (Bool-cases (x == n)) [
            | inl y ↦
                let q = ==→eq x n y in
                let same : using s ≡ using k = rw y at e in
                (
                  ap g.holder q ∙ l.no_holder,
                  cc (ap p.size_of q, l.size, same),
                  ap g.cut q ∙ l.is_cut,
                  let fit : s ≡ k = cc same in omega (arith, small, fit),
                )
            | inr z ↦ i.used x k (rw z at e)
          ];
          returned = λ x e. elim (Bool-cases (x == n)) [
            | inl y ↦ let same : using s ≡ returned = rw y at e in cc same
            | inr z ↦ rw z (i.returned x (rw z at e))
          ];
        };
      }

  -- A node that is no longer counted as in use is loose.
  pub give_back-HasLoose :
      {p : MemoryPool} {n s : ℕ}
      → IsGood base use_of p
      → use_of n ≡ using s
      → HasLoose base (update use_of n never) p n s
  give_back-HasLoose {p} {n} {s} g e =
      let (a, b, c, d) = g.inv.used n s e in
      record {
        holder = g.holder;
        cut = g.cut;
        inv = record {
          regions = g.inv.regions;
          lists = g.inv.lists;
          used = λ x k q. elim (Bool-cases (x == n)) [
            | inl y ↦ let wrong : never ≡ using k = rw y at q in cc wrong
            | inr z ↦ g.inv.used x k (rw z at q)
          ];
          returned = λ x q. elim (Bool-cases (x == n)) [
            | inl y ↦ let wrong : never ≡ returned = rw y at q in cc wrong
            | inr z ↦ g.inv.returned x (rw z at q)
          ];
        };
        loose = record {
          no_holder = a;
          size = b;
          is_cut = c;
          unused =
              λ k q. let wrong : never ≡ using k = sym (update_self use_of n never) ∙ q in cc wrong;
        };
      }

-- A node without a thread can be counted as given back.
pub returned-IsGood :
    {base : ℕ → ℕ} {p : MemoryPool} (use_of : ℕ → Use) (n : ℕ)
    → IsGood base (update use_of n never) p
    → p.thread_of n ≡ 0
    → IsGood base (update use_of n returned) p
returned-IsGood {p} use_of n g h = record {
  holder = g.holder;
  cut = g.cut;
  inv = record {
    regions = g.inv.regions;
    lists = g.inv.lists;
    used = λ x k q. elim (Bool-cases (x == n)) [
      | inl y ↦ let wrong : returned ≡ using k = rw y at q in cc wrong
      | inr z ↦
          let same : use_of x ≡ using k = rw z at q in
          g.inv.used x k (update_other use_of n x never (==→ne x n z) ∙ same)
    ];
    returned = λ x q. elim (Bool-cases (x == n)) [
      | inl y ↦ ap p.thread_of (==→eq x n y) ∙ h
      | inr z ↦
          let same : use_of x ≡ returned = rw z at q in
          g.inv.returned x (update_other use_of n x never (==→ne x n z) ∙ same)
    ];
  };
}

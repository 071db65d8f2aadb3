-- ===== src/Packet/Lifetime/Freed.antt =====
-- When the memory of a WsaSend is given back.
use network.Prelude.{
  ℕ, ◌≡◌, ◌≢◌, ◌≤◌, ◌<◌, ◌+◌, ◌-◌, ◌%◌, ◌∙◌, refl, ap, sym, Bool, true, false, ◌==◌, if◌then◌else◌,
  sub32, arith, Bool-cases, inl, inr, ne→==,
}
use network.Packet.Lifetime.{
  Block, Use, Step, Reach, default_reference, refers, releases, destroys, made, then_step,
  add_reference, drop_reference, destroy,
}

-- Once the RefPacket has ended and no reference is held.
abbrev pub given_up : Use → Bool
given_up u = if u.owned then false else u.held == 0

-- While the RefPacket is there, `_refCount` is the default less what was released; afterwards it is what is held.
record IsCounted (u : Use) : Type 0 where
  bound : u.held ≤ u.block.count
  small : u.block.count < default_reference
  owns : u.owned ≡ true → u.block.ref_count + u.block.count ≡ default_reference + u.held
  left : u.owned ≡ false → u.block.ref_count ≡ u.held
  once : u.block.freed ≡ (if given_up u then 1 else 0)

given_up-owned :
    (b : Block) (o : Bool) (h : ℕ)
    → o ≡ true
    → given_up (record { block = b; owned = o; held = h }) ≡ false
given_up-owned b o h e = rw e refl

given_up-left :
    (b : Block) (o : Bool) (h : ℕ)
    → o ≡ false
    → given_up (record { block = b; owned = o; held = h }) ≡ (h == 0)
given_up-left b o h e = rw e refl

-- A block that was not given back yet.
freed-none : (u : Use) → IsCounted u → given_up u ≡ false → u.block.freed ≡ 0
freed-none u c e = c.once ∙ ap (λ g. if g then 1 else 0) e

freed_at : (n f : ℕ) → f ≡ 0 → (if n == 0 then f + 1 else f) ≡ (if n == 0 then 1 else 0)
freed_at n f e = elim (Bool-cases (n == 0)) [ inl z ↦ rw (z, e) refl | inr z ↦ rw (z, e) refl ]

refers-IsCounted :
    (u : Use)
    → u.owned ≡ true
    → u.block.count + 1 < default_reference
    → IsCounted u
    → IsCounted (record u { block = add_reference u.block; held = u.held + 1 })
unfolding add_reference
refers-IsCounted u o l c = record {
  bound = omega (arith, c.bound);
  small = omega (arith, l);
  owns = λ e. omega (arith, l, c.owns o);
  left = λ e. cc (o, e);
  once =
      freed-none u c (given_up-owned u.block u.owned u.held o)
      ∙ ap (λ g. if g then 1 else 0)
          (sym (given_up-owned (add_reference u.block) u.owned (u.held + 1) o));
}

-- A reference is released: the last one only after the RefPacket has ended.
releases-IsCounted :
    (u : Use)
    → 0 < u.held
    → IsCounted u
    → IsCounted (record u { block = drop_reference u.block; held = u.held - 1 })
unfolding drop_reference
releases-IsCounted u h c = elim (Bool-cases u.owned) [
  | inl o ↦
      let n_eq : sub32 u.block.ref_count 1 ≡ u.block.ref_count - 1 =
        omega (arith, c.owns o, c.small, c.bound, h) in
      let more : sub32 u.block.ref_count 1 ≢ 0 =
        λ e. absurd (omega (arith, e, n_eq, c.owns o, c.small, c.bound, h)) in
      record {
        bound = omega (arith, c.bound);
        small = c.small;
        owns = λ e. omega (arith, n_eq, c.owns o, c.small, h);
        left = λ e. cc (o, e);
        once =
            freed_at (sub32 u.block.ref_count 1) u.block.freed
              (freed-none u c (given_up-owned u.block u.owned u.held o))
            ∙ ap (λ g. if g then 1 else 0)
                (ne→== (sub32 u.block.ref_count 1) 0 more
                  ∙ sym (given_up-owned (drop_reference u.block) u.owned (u.held - 1) o));
      }
  | inr o ↦
      let n_eq : sub32 u.block.ref_count 1 ≡ u.held - 1 =
        omega (arith, c.left o, c.bound, c.small, h) in
      record {
        bound = omega (arith, c.bound);
        small = c.small;
        owns = λ e. cc (o, e);
        left = λ e. n_eq;
        once =
            freed_at (sub32 u.block.ref_count 1) u.block.freed (
              freed-none u c (
                given_up-left u.block u.owned u.held o
                ∙ ne→== u.held 0 (λ e. absurd (omega (arith, e, h)))))
            ∙ ap (λ g. if g then 1 else 0)
                (ap (λ m. m == 0) n_eq
                  ∙ sym (given_up-left (drop_reference u.block) u.owned (u.held - 1) o));
      }
]

destroys-IsCounted :
    (u : Use)
    → u.owned ≡ true
    → IsCounted u
    → IsCounted (record u { block = destroy u.block; owned = false })
unfolding destroy
destroys-IsCounted u o c =
    let n_eq : (u.block.ref_count + u.block.count + (4294967296 - default_reference)) % 4294967296
        ≡ u.held =
      omega (arith, c.owns o, c.small, c.bound) in
    record {
      bound = c.bound;
      small = c.small;
      owns = λ e. cc e;
      left = λ e. n_eq;
      once =
          freed_at _ u.block.freed (freed-none u c (given_up-owned u.block u.owned u.held o))
          ∙ ap (λ m. if m == 0 then 1 else 0) n_eq;
    }

Reach-IsCounted : {u : Use} → Reach u → IsCounted u
Reach-IsCounted made = record {
  bound = omega arith;
  small = omega arith;
  owns = λ e. refl;
  left = λ e. cc e;
  once = refl;
}
Reach-IsCounted (then_step {u} r (refers o l)) = refers-IsCounted u o l (Reach-IsCounted r)
Reach-IsCounted (then_step {u} r (releases h)) = releases-IsCounted u h (Reach-IsCounted r)
Reach-IsCounted (then_step {u} r (destroys o)) = destroys-IsCounted u o (Reach-IsCounted r)

no_step : {u v : Use} → given_up u ≡ true → Step u v → ⊥
no_step {u} g (refers o l) = cc (g, given_up-owned u.block u.owned u.held o)
no_step {u} g (destroys o) = cc (g, given_up-owned u.block u.owned u.held o)
no_step {u} g (releases h) = elim (Bool-cases u.owned) [
  | inl o ↦ cc (g, given_up-owned u.block u.owned u.held o)
  | inr o ↦ cc (
    g,
    given_up-left u.block u.owned u.held o,
    ne→== u.held 0 (λ e. absurd (omega (arith, e, h))),
  )
]

-- A WsaSend is made, references are taken while its RefPacket is there (fewer than 10000000), the
-- RefPacket ends once, and each reference is released once, by any thread at any time: then in
-- every order the memory is given back exactly once, as soon as the RefPacket has ended and no
-- reference is held, never before, and nothing happens to the block afterwards.
pub Reach-freed :
    {u : Use}
    → Reach u
    → (u.block.freed ≡ (if given_up u then 1 else 0)) × (given_up u ≡ true → (v : Use) → ¬ Step u v)
Reach-freed r = ((Reach-IsCounted r).once, λ g v s. no_step g s)

-- ===== src/Pool/Places.antt =====
-- Where the nodes are: each in one stack at most, and none of those that are in use in any.
use network.Prelude.{
  ℕ, ◌≡◌, ◌≢◌, ◌<◌, ◌∙◌, refl, sym, ap, subst, true, false, Bool, Option, none, some, List, [], ◌∷◌,
  ◌==◌, Bool-cases, inl, inr, ==→eq, ==→ne, ne→==, eq→==,
}
use network.Pool.{max_size, MemoryPool, update, update_stack}
use network.Pool.Regions.{Regions}

-- What has become of an address at the users of the pool: never handed out, in use, for so many bytes, or
-- given back.
pub data Use : Type 0 where
  never : Use
  using : ℕ → Use
  returned : Use

abbrev pub NotIn : ℕ → List ℕ → Type 0
NotIn n [] = Unit {0}
NotIn n (x ∷ xs) = (x ≢ n) × NotIn n xs

-- The nodes of the stack of thread `t` for `s`.
abbrev pub Held : (ℕ → Option (ℕ × ℕ)) → (ℕ → Bool) → (ℕ → ℕ) → (ℕ → ℕ) → ℕ → ℕ → List ℕ → Type 0
Held holder cut size_of thread_of t s [] = Unit {0}
Held holder cut size_of thread_of t s (n ∷ ns) =
    (holder n ≡ some (t, s))
    × (size_of n ≡ s)
    × (thread_of n ≡ 0)
    × (cut n ≡ true)
    × NotIn n ns
    × Held holder cut size_of thread_of t s ns

pub record Inv (base : ℕ → ℕ) (use_of : ℕ → Use) (holder : ℕ → Option (ℕ × ℕ)) (cut : ℕ → Bool)
    (p : MemoryPool) : Type 0 where
  pub regions : Regions base cut p.size_of p.pops p.bufs p.mallocs
  pub lists : (t s : ℕ) → Held holder cut p.size_of p.thread_of t s (p.stacks t s)
  pub used :
      (n s : ℕ)
      → use_of n ≡ using s
      → (holder n ≡ none) × (p.size_of n ≡ s) × (cut n ≡ true) × (s < max_size)
  pub returned : (n : ℕ) → use_of n ≡ returned → p.thread_of n ≡ 0

-- A node that is in no stack, and not in use.
pub record Loose (use_of : ℕ → Use) (holder : ℕ → Option (ℕ × ℕ)) (cut : ℕ → Bool) (p : MemoryPool)
    (n s : ℕ) : Type 0 where
  pub no_holder : holder n ≡ none
  pub size : p.size_of n ≡ s
  pub is_cut : cut n ≡ true
  pub unused : (l : ℕ) → use_of n ≢ using l

-- The nodes other than `n` are as they were.
pub record Agree (n : ℕ) (holder holder' : ℕ → Option (ℕ × ℕ)) (cut cut' : ℕ → Bool)
    (size_of size_of' thread_of thread_of' : ℕ → ℕ) : Type 0 where
  pub holders : (x : ℕ) → x ≢ n → holder' x ≡ holder x
  pub sizes : (x : ℕ) → x ≢ n → size_of' x ≡ size_of x
  pub threads : (x : ℕ) → x ≢ n → thread_of' x ≡ thread_of x
  pub cuts : (x : ℕ) → x ≢ n → cut' x ≡ cut x

module _ {holder holder' : ℕ → Option (ℕ × ℕ)} {cut cut' : ℕ → Bool}
    {size_of size_of' thread_of thread_of' : ℕ → ℕ} (n : ℕ)
    (a : Agree n holder holder' cut cut' size_of size_of' thread_of thread_of') where
  pub Held-Agree :
      (t s : ℕ) (ns : List ℕ)
      → NotIn n ns
      → Held holder cut size_of thread_of t s ns
      → Held holder' cut' size_of' thread_of' t s ns
  Held-Agree t s [] k h = tt
  Held-Agree t s (x ∷ xs) (ne, k) (h, z, f, c, d, r) = (
    a.holders x ne ∙ h,
    a.sizes x ne ∙ z,
    a.threads x ne ∙ f,
    a.cuts x ne ∙ c,
    d,
    Held-Agree t s xs k r,
  )

pub update_self {ℓ} : {A : Type ℓ} (f : ℕ → A) (k : ℕ) (v : A) → update f k v k ≡ v
update_self f k v = rw (eq→== k k refl) refl

pub update_other {ℓ} : {A : Type ℓ} (f : ℕ → A) (k j : ℕ) (v : A) → j ≢ k → update f k v j ≡ f j
update_other f k j v h = rw (ne→== j k h) refl

-- A node that is held elsewhere, or nowhere, is not in a stack.
pub not-Held :
    (holder : ℕ → Option (ℕ × ℕ)) (cut : ℕ → Bool) (size_of thread_of : ℕ → ℕ) (n t s : ℕ)
    (ns : List ℕ)
    → holder n ≢ some (t, s)
    → Held holder cut size_of thread_of t s ns
    → NotIn n ns
not-Held holder cut size_of thread_of n t s [] e h = tt
not-Held holder cut size_of thread_of n t s (x ∷ xs) e (h, _, _, _, _, r) =
    (λ q. e (ap holder (sym q) ∙ h), not-Held holder cut size_of thread_of n t s xs e r)

pub not_cut :
    (holder : ℕ → Option (ℕ × ℕ)) (cut : ℕ → Bool) (size_of thread_of : ℕ → ℕ) (n t s : ℕ)
    (ns : List ℕ)
    → cut n ≡ false
    → Held holder cut size_of thread_of t s ns
    → NotIn n ns
not_cut holder cut size_of thread_of n t s [] e h = tt
not_cut holder cut size_of thread_of n t s (x ∷ xs) e (_, _, _, c, _, r) =
    (λ q. cc (ap cut q, e, c), not_cut holder cut size_of thread_of n t s xs e r)

-- What holds of one stack anew and of all others still holds of all.
pub update_stack-all :
    (P : ℕ → ℕ → List ℕ → Type 0) (f : ℕ → ℕ → List ℕ) (t s : ℕ) (ns : List ℕ)
    → P t s ns
    → ((u v : ℕ) → ¬ ((u ≡ t) × (v ≡ s)) → P u v (f u v))
    → (u v : ℕ) → P u v (update_stack f t s ns u v)
update_stack-all P f t s ns here there u v = elim (Bool-cases (u == t)) [
  | inl y ↦
      let e = ==→eq u t y in
      elim (Bool-cases (v == s)) [
        | inl z ↦
            rw (y, z)
              (subst (λ w. P w v ns) (sym e) (subst (λ w. P t w ns) (sym (==→eq v s z)) here))
        | inr z ↦ rw (y, z) (subst (λ w. P u v (f w v)) e (there u v (λ q. ==→ne v s z q.1)))
      ]
  | inr y ↦ rw y (there u v (λ q. ==→ne u t y q.0))
]

-- The invariant, for some view of where the nodes are.
pub record IsGood (base : ℕ → ℕ) (use_of : ℕ → Use) (p : MemoryPool) : Type 0 where
  pub holder : ℕ → Option (ℕ × ℕ)
  pub cut : ℕ → Bool
  pub inv : Inv base use_of holder cut p

-- The same, with a loose node at hand.
pub record HasLoose (base : ℕ → ℕ) (use_of : ℕ → Use) (p : MemoryPool) (n s : ℕ) : Type 0 where
  pub holder : ℕ → Option (ℕ × ℕ)
  pub cut : ℕ → Bool
  pub inv : Inv base use_of holder cut p
  pub loose : Loose use_of holder cut p n s

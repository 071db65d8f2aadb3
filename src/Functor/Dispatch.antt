-- ===== src/Functor/Dispatch.antt =====
-- A packet gets to the function that was registered first for its type.
use network.Prelude.{
  ℕ, zero, suc, ◌≡◌, ◌≢◌, ◌≤◌, ◌<◌, ◌∙◌, refl, sym, ap, true, Option, none, some, List, [], ◌∷◌,
  ltb, if◌then◌else◌, get_or, get_elem?, set, replicate, length, arith, length-set,
  length-replicate, Option-cases, Bool-cases, inl, inr, ◌==◌, eq→==, ne→==, le→ltb, ltb→lt, ltb→le,
}
use native.Mathlib.Decide.{ℕ_discrete}
use network.Packet.{max_type, Packet, check}
use network.Packet.Size.{check_bounds}
use network.Functor.{new_functor, reg_function, call_function}

-- Registrations of a type and a function, the last of them first.
unfoldable pub registered : List (ℕ × ℕ) → List (Option ℕ)
registered [] = new_functor
registered (r ∷ rs) = reg_function r.0 r.1 (registered rs)

-- The specification: the first registration for a type counts.
abbrev pub or_else : Option ℕ → Option ℕ → Option ℕ
or_else none o = o
or_else (some f) o = some f

abbrev pub first_of : ℕ → List (ℕ × ℕ) → Option ℕ
first_of type [] = none
first_of type (r ∷ rs) = or_else (first_of type rs) (if r.0 == type then some r.1 else none)

get_elem?-get_or :
    (xs : List (Option ℕ)) (i : ℕ) → i < length xs → get_elem? xs i ≡ some (get_or xs i none)
get_elem?-get_or [] i h = absurd (omega arith)
get_elem?-get_or (x ∷ xs) zero h = refl
get_elem?-get_or (x ∷ xs) (suc i) h = get_elem?-get_or xs i (omega arith)

get_or-set :
    (xs : List (Option ℕ)) (i : ℕ) (o : Option ℕ) → i < length xs → get_or (set xs i o) i none ≡ o
get_or-set [] i o h = absurd (omega arith)
get_or-set (x ∷ xs) zero o h = refl
get_or-set (x ∷ xs) (suc i) o h = get_or-set xs i o (omega arith)

get_or-set_other :
    (xs : List (Option ℕ)) (i j : ℕ) (o : Option ℕ)
    → i ≢ j
    → get_or (set xs i o) j none ≡ get_or xs j none
get_or-set_other [] i j o h = refl
get_or-set_other (x ∷ xs) zero zero o h = absurd (h refl)
get_or-set_other (x ∷ xs) zero (suc j) o h = refl
get_or-set_other (x ∷ xs) (suc i) zero o h = refl
get_or-set_other (x ∷ xs) (suc i) (suc j) o h = get_or-set_other xs i j o (λ e. h (ap suc e))

get_or-replicate : (n i : ℕ) → get_or (replicate {A = Option ℕ} n none) i none ≡ none
unfolding replicate
get_or-replicate zero i = refl
get_or-replicate (suc n) zero = refl
get_or-replicate (suc n) (suc i) = get_or-replicate n i

reg_function_refused :
    (type func : ℕ) (funcs : List (Option ℕ))
    → max_type < type
    → reg_function type func funcs ≡ funcs
unfolding reg_function
reg_function_refused type func funcs h = ground arith

reg_function_taken :
    (type func other : ℕ) (funcs : List (Option ℕ))
    → get_or funcs type none ≡ some other
    → reg_function type func funcs ≡ funcs
unfolding reg_function
reg_function_taken type func other funcs e = elim (Bool-cases (ltb max_type type)) [
  | inl t ↦ rw t refl
  | inr t ↦ rw (t, e) refl
]

reg_function_free :
    (type func : ℕ) (funcs : List (Option ℕ))
    → type ≤ max_type
    → get_or funcs type none ≡ none
    → reg_function type func funcs ≡ set funcs type (some func)
unfolding reg_function
reg_function_free type func funcs h e = rw (le→ltb max_type type h, e) refl

length-registered : (rs : List (ℕ × ℕ)) → length (registered rs) ≡ 65535
unfolding registered new_functor
length-registered [] = length-replicate {A = Option ℕ} 65535 none
length-registered (r ∷ rs) = elim (Bool-cases (ltb max_type r.0)) [
  | inl t ↦
      ap length (reg_function_refused r.0 r.1 (registered rs) (ltb→lt max_type r.0 t))
      ∙ length-registered rs
  | inr t ↦ elim (Option-cases (get_or (registered rs) r.0 none)) [
    | inl e ↦
        ap length (reg_function_free r.0 r.1 (registered rs) (ltb→le max_type r.0 t) e)
        ∙ length-set (registered rs) r.0 (some r.1)
        ∙ length-registered rs
    | inr (g, e) ↦ ap length (reg_function_taken r.0 r.1 g (registered rs) e) ∙ length-registered rs
  ]
]

get_or-registered :
    (rs : List (ℕ × ℕ)) (type : ℕ)
    → type ≤ max_type
    → get_or (registered rs) type none ≡ first_of type rs
unfolding registered new_functor
get_or-registered [] type h = get_or-replicate 65535 type
get_or-registered (r ∷ rs) type h =
    let before = get_or-registered rs type h in
    elim (ℕ_discrete r.0 type) [
      | yes q ↦
          rw (q, eq→== type type refl)
            (elim (Option-cases (first_of type rs)) [
              | inl e ↦
                  rw (reg_function_free type r.1 (registered rs) h (before ∙ e), e)
                    (get_or-set (registered rs) type (some r.1)
                      (omega (arith, length-registered rs)))
              | inr (g, e) ↦
                  rw (reg_function_taken type r.1 g (registered rs) (before ∙ e), e) (before ∙ e)
            ])
      | no q ↦
          rw (ne→== r.0 type q) (other_type r rs type q ∙ before ∙ sym (or_none (first_of type rs)))
    ]
  where
    or_none : (o : Option ℕ) → or_else o none ≡ o
    or_none none = refl
    or_none (some f) = refl

    other_type :
        (r : ℕ × ℕ) (rs : List (ℕ × ℕ)) (type : ℕ)
        → r.0 ≢ type
        → get_or (reg_function r.0 r.1 (registered rs)) type none ≡ get_or (registered rs) type none
    other_type r rs type q = elim (Bool-cases (ltb max_type r.0)) [
      | inl t ↦
          ap (λ l. get_or l type none)
            (reg_function_refused r.0 r.1 (registered rs) (ltb→lt max_type r.0 t))
      | inr t ↦ elim (Option-cases (get_or (registered rs) r.0 none)) [
        | inl e ↦
            ap (λ l. get_or l type none)
              (reg_function_free r.0 r.1 (registered rs) (ltb→le max_type r.0 t) e)
            ∙ get_or-set_other (registered rs) r.0 type (some r.1) q
        | inr (g, e) ↦ ap (λ l. get_or l type none) (reg_function_taken r.0 r.1 g (registered rs) e)
      ]
    ]

-- After any registrations, a packet with a 16-bit type that Check accepts is dispatched within the
-- array, to the function that was registered first for its type, and to none if there was no
-- registration for it.
pub call_function-registered :
    (rs : List (ℕ × ℕ)) (p : Packet)
    → p.type < 65536
    → check p ≡ true
    → call_function p.type (registered rs) ≡ some (first_of p.type rs)
unfolding call_function
call_function-registered rs p w h =
    let (legal, _, _) = (check_bounds p).0 h in
    get_elem?-get_or (registered rs) p.type (omega (arith, length-registered rs, legal))
    ∙ ap some (get_or-registered rs p.type (omega (arith, legal)))

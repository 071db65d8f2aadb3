-- ===== src/Filter/Words.antt =====
-- The words of a Filter are those that were registered.
use network.Prelude.{
  ℕ, ◌≡◌, ◌⊎◌, inl, inr, ◌∙◌, refl, ap, sym, true, false, Bool, none, some, List, [], ◌∷◌, ◌==◌,
  if◌then◌else◌, Bool-cases, ==→eq, eq→==, arith, Option-cases,
}
use network.Filter.{
  Filter, empty, end, pair, lookup, has_end, set_at, set_end, word_or_new, register,
}

-- The path of the word is in the trie, and '\0' behind it.
unfoldable pub is_word : List ℕ → Filter → Bool
is_word [] f = has_end f
is_word (c ∷ cs) f = elim (lookup c f) [ some word ↦ is_word cs word | none ↦ false ]

abbrev pub Among : List ℕ → List (List ℕ) → Type 0
Among v [] = ⊥
Among v (w ∷ ws) = (v ≡ w) ⊎ Among v ws

-- Words are registered one after the other, the last one first.
unfoldable pub register_all : List (List ℕ) → Filter
register_all [] = empty
register_all (w ∷ ws) = register w (register_all ws)

lookup-set_at :
    (c d : ℕ) (word f : Filter)
    → lookup c (set_at d word f) ≡ (if c == d then some word else lookup c f)
unfolding lookup set_at
lookup-set_at c d word empty = refl
lookup-set_at c d word (end f) = lookup-set_at c d word f
lookup-set_at c d word (pair e old f) = ground (arith, lookup-set_at c d word f)

has_end-set_at : (d : ℕ) (word f : Filter) → has_end (set_at d word f) ≡ has_end f
unfolding has_end set_at
has_end-set_at d word empty = refl
has_end-set_at d word (end f) = refl
has_end-set_at d word (pair e old f) = ground (arith, has_end-set_at d word f)

lookup-set_end : (c : ℕ) (f : Filter) → lookup c (set_end f) ≡ lookup c f
unfolding lookup set_end
lookup-set_end c empty = refl
lookup-set_end c (end f) = refl
lookup-set_end c (pair e word f) = ground (arith, lookup-set_end c f)

has_end-set_end : (f : Filter) → has_end (set_end f) ≡ true
unfolding has_end set_end
has_end-set_end empty = refl
has_end-set_end (end f) = refl
has_end-set_end (pair e word f) = has_end-set_end f

is_word-empty : (v : List ℕ) → is_word v empty ≡ false
unfolding is_word has_end lookup
is_word-empty [] = refl
is_word-empty (c ∷ cs) = refl

-- A new word is there.
is_word-register_self : (w : List ℕ) (f : Filter) → is_word w (register w f) ≡ true
unfolding is_word register
is_word-register_self [] f = has_end-set_end f
is_word-register_self (c ∷ cs) f =
    rw (lookup-set_at c c (register cs (word_or_new (lookup c f))) f, is_word)
      (rw (eq→== c c refl) (is_word-register_self cs (word_or_new (lookup c f))))

is_word-word_or_new :
    (c : ℕ) (v : List ℕ) (f : Filter) → is_word v (word_or_new (lookup c f)) ≡ is_word (c ∷ v) f
unfolding is_word
is_word-word_or_new c v f = elim (Option-cases (lookup c f)) [
  | inl e ↦ rw (e, is_word) (is_word-empty v)
  | inr (w, e) ↦ rw (e, is_word) refl
]

-- The old words are still there, and no others.
is_word-register : (v w : List ℕ) (f : Filter) → (v ≡ w) ⊎ (is_word v (register w f) ≡ is_word v f)
unfolding is_word register
is_word-register [] [] f = inl refl
is_word-register [] (d ∷ ds) f = inr (has_end-set_at d _ f)
is_word-register (c ∷ cs) [] f = inr (rw (lookup-set_end c f, is_word) refl)
is_word-register (c ∷ cs) (d ∷ ds) f = elim (Bool-cases (c == d)) [
  | inl y ↦
      let q = ==→eq c d y in
      elim (is_word-register cs ds (word_or_new (lookup d f))) [
        | inl e ↦ inl (λ i. q i ∷ e i)
        | inr e ↦ inr (
            rw (lookup-set_at c d (register ds (word_or_new (lookup d f))) f, is_word)
              (rw (y, is_word)
                (e ∙ is_word-word_or_new d cs f ∙ ap (λ x. is_word (x ∷ cs) f) (sym q))))
      ]
  | inr z ↦ inr (
      rw (lookup-set_at c d (register ds (word_or_new (lookup d f))) f, is_word)
        (rw (z, is_word) refl))
]

pub is_word-Among :
    (v : List ℕ) (ws : List (List ℕ)) → Among v ws → is_word v (register_all ws) ≡ true
unfolding register_all
is_word-Among v [] h = absurd h
is_word-Among v (w ∷ ws) (inl e) = rw e (is_word-register_self w (register_all ws))
is_word-Among v (w ∷ ws) (inr h) = elim (is_word-register v w (register_all ws)) [
  | inl e ↦ rw e (is_word-register_self w (register_all ws))
  | inr e ↦ e ∙ is_word-Among v ws h
]

pub Among-is_word :
    (v : List ℕ) (ws : List (List ℕ)) → is_word v (register_all ws) ≡ true → Among v ws
unfolding register_all
Among-is_word v [] h = cc (is_word-empty v, h)
Among-is_word v (w ∷ ws) h = elim (is_word-register v w (register_all ws)) [
  | inl e ↦ inl e
  | inr e ↦ inr (Among-is_word v ws (sym e ∙ h))
]

-- A character of the first map begins a word.
pub lookup-Among :
    (c : ℕ) (ws : List (List ℕ))
    → (lookup c (register_all ws) ≡ none) ⊎ ((v : List ℕ) × Among (c ∷ v) ws)
unfolding register_all register lookup
lookup-Among c [] = inl refl
lookup-Among c ([] ∷ ws) = elim (lookup-Among c ws) [
  | inl e ↦ inl (lookup-set_end c (register_all ws) ∙ e)
  | inr (v, a) ↦ inr (v, inr a)
]
lookup-Among c ((d ∷ ds) ∷ ws) = elim (Bool-cases (c == d)) [
  | inl y ↦ inr (ds, inl (ap (λ x. x ∷ ds) (==→eq c d y)))
  | inr z ↦ elim (lookup-Among c ws) [
    | inl e ↦ inl (lookup-set_at c d _ (register_all ws) ∙ rw z e)
    | inr (v, a) ↦ inr (v, inr a)
  ]
]

-- ===== src/Filter/Spread.antt =====
-- What the words found are: registered, and spread over the text.
use network.Prelude.{
  ℕ, zero, suc, ◌≡◌, inl, inr, true, false, Bool, some, List, [], ◌∷◌, Bool-cases, Option-cases,
  none, Option, subst, ap,
}
use network.Filter.{
  Filter, lookup, has_end, is_empty, start_lenth, enter, exist_loop, is_exist, write,
}
use network.Filter.Words.{is_word, Among, register_all, Among-is_word}

-- The characters of `v` stand in `text` in this order.
pub data Subsequence : List ℕ → List ℕ → Type 0 where
  done : (text : List ℕ) → Subsequence [] text
  keep : (c : ℕ) (v text : List ℕ) → Subsequence v text → Subsequence (c ∷ v) (c ∷ text)
  pass : (c : ℕ) (v text : List ℕ) → Subsequence v text → Subsequence v (c ∷ text)

-- The characters `v` are a word of the trie that is spread over the text.
record Spread (f : Filter) (text v : List ℕ) : Type 0 where
  is : is_word v f ≡ true
  within : Subsequence v text

abbrev pub answers : Bool → List ℕ → Option (Bool × List ℕ)
answers found v = some (found, v)

found_same : {v w : List ℕ} → answers true v ≡ some (true, w) → v ≡ w
found_same e = cc e

nothing-Spread :
    (f : Filter) (text v : List ℕ)
    → has_end f ≡ true
    → answers true [] ≡ some (true, v)
    → Spread f text v
unfolding is_word
nothing-Spread f text v y e =
    subst (Spread f text) (found_same e) (record { is = y; within = done text })

enter-Spread :
    (f : Filter) (text v : List ℕ) (r : Option (Bool × List ℕ))
    → (r ≡ some (true, v) → Spread f text v)
    → enter f text r ≡ some (true, v)
    → Spread f text v
enter-Spread f [] v r k h = elim (Bool-cases (has_end f)) [
  | inl y ↦ nothing-Spread f [] v y (rw y at h)
  | inr z ↦ let no : answers false [] ≡ some (true, v) = rw z at h in cc no
]
enter-Spread f (c ∷ cs) v r k h = elim (Bool-cases (has_end f)) [
  | inl y ↦ nothing-Spread f (c ∷ cs) v y (rw y at h)
  | inr z ↦ elim (Bool-cases (is_empty f)) [
    | inl y ↦ let no : answers false [] ≡ some (true, v) = rw (z, y) at h in cc no
    | inr w ↦ k (rw (z, w) at h)
  ]
]

-- What the characters behind the first one were.
write_inv :
    (c : ℕ) (v : List ℕ) (r : Option (Bool × List ℕ))
    → write c r ≡ some (true, v)
    → (u : List ℕ) × (r ≡ some (true, u)) × (c ∷ u ≡ v)
write_inv c v none h = cc h
write_inv c v (some (found, u)) h =
    let e : found ≡ true = cc h in let l : c ∷ u ≡ v = cc h in (u, ap (λ b. answers b u) e, l)

exist_loop-Spread :
    (f : Filter) (text : List ℕ) (lenth : ℕ) (v : List ℕ)
    → exist_loop f text lenth ≡ some (true, v)
    → Spread f text v
unfolding exist_loop is_word
exist_loop-Spread f [] zero v h = cc h
exist_loop-Spread f [] (suc zero) v h = cc h
exist_loop-Spread f [] (suc (suc lenth)) v h = cc h
exist_loop-Spread f (c ∷ cs) zero v h = cc h
exist_loop-Spread f (c ∷ cs) (suc lenth) v h = elim (Option-cases (lookup c f)) [
  | inl e ↦
      let t = exist_loop-Spread f cs lenth v (rw (e, exist_loop) at h) in
      record { is = t.is; within = pass c v cs t.within }
  | inr (word, e) ↦
      let n = start_lenth cs lenth in
      let (u, q, same) =
        write_inv c v (enter word cs (exist_loop word cs n)) (rw (e, exist_loop) at h) in
      let t = enter-Spread word cs u (exist_loop word cs n) (exist_loop-Spread word cs n u) q in
      subst (Spread f (c ∷ cs)) same
        (record { is = rw (is_word, e) t.is; within = keep c u cs t.within })
]

pub is_exist-Spread :
    (ws : List (List ℕ)) (text : List ℕ) (lenth : ℕ) (v : List ℕ)
    → is_exist (register_all ws) text lenth ≡ some (true, v)
    → Among v ws × Subsequence v text
unfolding is_exist
is_exist-Spread ws text lenth v h =
    let f = register_all ws in
    let n = start_lenth text lenth in
    let s = enter-Spread f text v (exist_loop f text n) (exist_loop-Spread f text n v) h in
    (Among-is_word v ws s.is, s.within)

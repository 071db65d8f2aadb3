-- ===== src/Filter/Found.antt =====
-- What IsExist finds.
use network.Prelude.{
  ◌∙◌, ℕ, zero, suc, ◌≡◌, inl, inr, refl, true, false, Bool, some, List, [], ◌∷◌, ◌++◌, length,
  Bool-cases, ne→==, arith, Option-cases, Option, ◌⊎◌, ◌≤◌, ap,
}
use network.Filter.{
  Filter, empty, end, pair, lookup, has_end, is_empty, start_lenth, enter, exist_loop, is_exist,
  write,
}
use network.Filter.Words.{is_word, Among, register_all, is_word-Among, lookup-Among}
use network.Filter.Spread.{Subsequence, answers, is_exist-Spread}

start_lenth-bound :
    (text : List ℕ) (lenth : ℕ)
    → lenth ≤ suc (length text)
    → start_lenth text lenth ≤ suc (length text)
start_lenth-bound [] lenth h = h
start_lenth-bound (c ∷ cs) lenth h = ground (arith, h)

-- Nothing behind the terminator is read.
enter-returns :
    (f : Filter) (text : List ℕ) (r : Option (Bool × List ℕ))
    → ((q : Bool × List ℕ) × (r ≡ some q))
    → (q : Bool × List ℕ) × (enter f text r ≡ some q)
enter-returns f [] r k = elim (Bool-cases (has_end f)) [
  | inl y ↦ ((true, []), rw y refl)
  | inr z ↦ ((false, []), rw z refl)
]
enter-returns f (c ∷ cs) r (q, e) = elim (Bool-cases (has_end f)) [
  | inl y ↦ ((true, []), rw y refl)
  | inr z ↦ elim (Bool-cases (is_empty f)) [
    | inl y ↦ ((false, []), rw (z, y) refl)
    | inr w ↦ (q, rw (z, w) e)
  ]
]

exist_loop-returns :
    (f : Filter) (text : List ℕ) (lenth : ℕ)
    → lenth ≤ suc (length text)
    → (q : Bool × List ℕ) × (exist_loop f text lenth ≡ some q)
unfolding exist_loop
exist_loop-returns f [] zero h = (_, refl)
exist_loop-returns f [] (suc zero) h = (_, refl)
exist_loop-returns f [] (suc (suc lenth)) h = absurd (omega (arith, h))
exist_loop-returns f (c ∷ cs) zero h = (_, refl)
exist_loop-returns f (c ∷ cs) (suc lenth) h = elim (Option-cases (lookup c f)) [
  | inl e ↦
      let (q, k) = exist_loop-returns f cs lenth (omega (arith, h)) in (q, rw (exist_loop, e) k)
  | inr (word, e) ↦
      let n = start_lenth cs lenth in
      let (q, k) =
        enter-returns word cs (exist_loop word cs n)
          (exist_loop-returns word cs n (start_lenth-bound cs lenth (omega (arith, h)))) in
      ((q.0, c ∷ q.1), rw (exist_loop, e) (ap (write c) k))
]

-- Whatever words are registered, if the length given is at most one more than that of the text:
-- IsExist answers without a read behind the terminator, and if it answers true, the characters
-- that it writes to `filter` are a registered word, and they stand in the text in this order,
-- perhaps with others between them.
pub is_exist-Among :
    (ws : List (List ℕ)) (text : List ℕ) (lenth : ℕ)
    → lenth ≤ suc (length text)
    → (r : Bool × List ℕ) × (is_exist (register_all ws) text lenth ≡ some r)
      × ((r.0 ≡ false) ⊎ (Among r.1 ws × Subsequence r.1 text))
unfolding is_exist
is_exist-Among ws text lenth h =
    let f = register_all ws in
    let n = start_lenth text lenth in
    let (r, e) =
      enter-returns f text (exist_loop f text n)
        (exist_loop-returns f text n (start_lenth-bound text lenth h)) in
    elim (Bool-cases r.0) [
      | inl y ↦ (r, e, inr (is_exist-Spread ws text lenth r.1 (e ∙ ap (λ b. answers b r.1) y)))
      | inr z ↦ (r, e, inl z)
    ]

lookup-is_empty : (c : ℕ) (f word : Filter) → lookup c f ≡ some word → is_empty f ≡ false
unfolding lookup
lookup-is_empty c empty word h = cc h
lookup-is_empty c (end f) word h = refl
lookup-is_empty c (pair d old f) word h = refl

start_lenth-length : (text : List ℕ) → start_lenth text (length text) ≡ length text
start_lenth-length [] = refl
start_lenth-length (c ∷ cs) = rw (ne→== (suc (length cs)) 0 (omega arith)) refl

-- A word at the front of the text is found.
enter-word :
    (w rest : List ℕ) (f : Filter)
    → is_word w f ≡ true
    → (v : List ℕ) × (enter f (w ++ rest) (exist_loop f (w ++ rest) (length (w ++ rest)))
        ≡ some (true, v))
unfolding is_word exist_loop
enter-word [] [] f h = ([], rw h refl)
enter-word [] (c ∷ cs) f h = ([], rw h refl)
enter-word (c ∷ w) rest f h = elim (Bool-cases (has_end f)) [
  | inl y ↦ ([], rw y refl)
  | inr z ↦ elim (Option-cases (lookup c f)) [
    | inl e ↦ let no : false ≡ true = rw (e, is_word) at h in cc no
    | inr (word, e) ↦
        let (v, q) = enter-word w rest word (rw (e, is_word) at h) in
        (
          c ∷ v,
          rw z (
              rw (lookup-is_empty c f word e)
                (rw (e, exist_loop) (rw (start_lenth-length (w ++ rest)) (ap (write c) q)))),
        )
  ]
]

-- No word begins with one of the characters.
abbrev pub NoneBegin : List ℕ → List (List ℕ) → Type 0
NoneBegin [] ws = Unit {0}
NoneBegin (c ∷ cs) ws = ((v : List ℕ) → ¬ (Among (c ∷ v) ws)) × NoneBegin cs ws

enter_inv :
    (f : Filter) (text v : List ℕ) (r : Option (Bool × List ℕ))
    → has_end f ≡ false
    → enter f text r ≡ some (true, v)
    → (is_empty f ≡ false) × (r ≡ some (true, v))
enter_inv f [] v r z h = let no : answers false [] ≡ some (true, v) = rw z at h in cc no
enter_inv f (c ∷ cs) v r z h = elim (Bool-cases (is_empty f)) [
  | inl y ↦ let no : answers false [] ≡ some (true, v) = rw (z, y) at h in cc no
  | inr w ↦ (w, rw (z, w) at h)
]

-- Characters that begin no word are passed over.
enter-front :
    (front text : List ℕ) (ws : List (List ℕ))
    → NoneBegin front ws
    → let f = register_all ws in
      ((v : List ℕ) × (enter f text (exist_loop f text (length text)) ≡ some (true, v)))
      → (v : List ℕ) × (enter f
            (front ++ text)
            (exist_loop f (front ++ text) (length (front ++ text)))
          ≡ some (true, v))
unfolding exist_loop
enter-front [] text ws n h = h
enter-front (c ∷ cs) text ws (a, n) h =
    let f = register_all ws in
    elim (Bool-cases (has_end f)) [
      | inl y ↦ ([], rw y refl)
      | inr z ↦
          let (v, q) = enter-front cs text ws n h in
          let (w, r) = enter_inv f (cs ++ text) v _ z q in
          elim (lookup-Among c ws) [
            | inl e ↦ (v, rw (z, w) (rw (e, exist_loop) r))
            | inr (u, m) ↦ absurd (a u m)
          ]
    ]

start_lenth-zero : (text : List ℕ) → start_lenth text 0 ≡ length text
start_lenth-zero [] = refl
start_lenth-zero (c ∷ cs) = refl

-- A text that has a registered word in it, behind characters none of which begins a registered
-- word, is found by IsExist without a length; and what is written to `filter` is a registered
-- word, whose characters stand in the text in this order.
pub is_exist-found :
    (ws : List (List ℕ)) (front w rest : List ℕ)
    → Among w ws
    → NoneBegin front ws
    → (filter : List ℕ) × (is_exist (register_all ws) (front ++ (w ++ rest)) 0
        ≡ some (true, filter))
      × Among filter ws
      × Subsequence filter (front ++ (w ++ rest))
unfolding is_exist
is_exist-found ws front w rest a n =
    let f = register_all ws in
    let text = front ++ (w ++ rest) in
    let (filter, q) =
      enter-front front (w ++ rest) ws n (enter-word w rest f (is_word-Among w ws a)) in
    let found : is_exist f text 0 ≡ some (true, filter) = rw (is_exist, start_lenth-zero text) q in
    let (among, spread) = is_exist-Spread ws text 0 filter found in (filter, found, among, spread)

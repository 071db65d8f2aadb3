-- ===== src/Prelude/Lists.antt =====
-- C arrays as lists with native indices: reading, writing, and copying a block into an array.
use Prim.Native.Nat.{ℕ, zero, suc, ◌+◌, ◌-◌, ◌≤◌, ◌<◌, min}
use mathlib.Core.Path.{◌≡◌, refl, sym, ap, subst, ◌∙◌}
use mathlib.Core.List.{List, [], ◌∷◌, ◌++◌}
use mathlib.Core.Option.{Option, none, some}
use native.Mathlib.Omega.{arith}

module _ {ℓ} {A : Type ℓ} where
  abbrev pub length : List A → ℕ
  length [] = 0
  length (x ∷ xs) = suc (length xs)

  abbrev pub get_elem? : List A → ℕ → Option A
  get_elem? [] i = none
  get_elem? (x ∷ xs) zero = some x
  get_elem? (x ∷ xs) (suc i) = get_elem? xs i

  abbrev pub get_or : List A → ℕ → A → A
  get_or [] i d = d
  get_or (x ∷ xs) zero d = x
  get_or (x ∷ xs) (suc i) d = get_or xs i d

  -- A write out of bounds changes nothing.
  abbrev pub set : List A → ℕ → A → List A
  set [] i v = []
  set (x ∷ xs) zero v = v ∷ xs
  set (x ∷ xs) (suc i) v = x ∷ set xs i v

  abbrev pub take : ℕ → List A → List A
  take zero xs = []
  take (suc n) [] = []
  take (suc n) (x ∷ xs) = x ∷ take n xs

  abbrev pub drop : ℕ → List A → List A
  drop zero xs = xs
  drop (suc n) [] = []
  drop (suc n) (x ∷ xs) = drop n xs

  -- memcpy: `src` over the elements of the array from `i` on. What falls outside is dropped.
  abbrev pub blit : List A → ℕ → List A → List A
  blit [] i src = []
  blit (x ∷ xs) zero [] = x ∷ xs
  blit (x ∷ xs) zero (s ∷ src) = s ∷ blit xs zero src
  blit (x ∷ xs) (suc i) src = x ∷ blit xs i src

  unfoldable pub replicate : ℕ → A → List A
  replicate zero a = []
  replicate (suc n) a = a ∷ replicate n a

  pub length-replicate : (n : ℕ) (a : A) → length (replicate n a) ≡ n
  unfolding replicate
  length-replicate zero a = refl
  length-replicate (suc n) a = ap suc (length-replicate n a)

  pub length-append : (xs ys : List A) → length (xs ++ ys) ≡ length xs + length ys
  length-append [] ys = omega arith
  length-append (x ∷ xs) ys = omega (arith, length-append xs ys)

  pub length-set : (xs : List A) (i : ℕ) (v : A) → length (set xs i v) ≡ length xs
  length-set [] i v = refl
  length-set (x ∷ xs) zero v = refl
  length-set (x ∷ xs) (suc i) v = ap suc (length-set xs i v)

  pub length-take : (n : ℕ) (xs : List A) → length (take n xs) ≡ min n (length xs)
  length-take zero xs = omega arith
  length-take (suc n) [] = omega arith
  length-take (suc n) (x ∷ xs) = omega (arith, length-take n xs)

  pub length-drop : (n : ℕ) (xs : List A) → length (drop n xs) ≡ length xs - n
  length-drop zero xs = omega arith
  length-drop (suc n) [] = omega arith
  length-drop (suc n) (x ∷ xs) = omega (arith, length-drop n xs)

  pub length-blit : (xs : List A) (i : ℕ) (src : List A) → length (blit xs i src) ≡ length xs
  length-blit [] i src = refl
  length-blit (x ∷ xs) zero [] = refl
  length-blit (x ∷ xs) zero (s ∷ src) = ap suc (length-blit xs zero src)
  length-blit (x ∷ xs) (suc i) src = ap suc (length-blit xs i src)

  pub take-append-drop : (n : ℕ) (xs : List A) → take n xs ++ drop n xs ≡ xs
  take-append-drop zero xs = refl
  take-append-drop (suc n) [] = refl
  take-append-drop (suc n) (x ∷ xs) = ap (◌∷◌ x) (take-append-drop n xs)

  pub take-length_append : (xs ys : List A) → take (length xs) (xs ++ ys) ≡ xs
  take-length_append [] ys = refl
  take-length_append (x ∷ xs) ys = ap (◌∷◌ x) (take-length_append xs ys)

  pub drop-length_append : (xs ys : List A) → drop (length xs) (xs ++ ys) ≡ ys
  drop-length_append [] ys = refl
  drop-length_append (x ∷ xs) ys = drop-length_append xs ys

  pub drop-append : (n : ℕ) (xs ys : List A) → n ≤ length xs → drop n (xs ++ ys) ≡ drop n xs ++ ys
  drop-append zero xs ys h = refl
  drop-append (suc n) [] ys h = absurd (omega arith)
  drop-append (suc n) (x ∷ xs) ys h = drop-append n xs ys (omega arith)

  pub take-append : (n : ℕ) (xs ys : List A) → n ≤ length xs → take n (xs ++ ys) ≡ take n xs
  take-append zero xs ys h = refl
  take-append (suc n) [] ys h = absurd (omega arith)
  take-append (suc n) (x ∷ xs) ys h = ap (◌∷◌ x) (take-append n xs ys (omega arith))

  pub take-all : (n : ℕ) (xs : List A) → length xs ≤ n → take n xs ≡ xs
  take-all zero [] h = refl
  take-all zero (x ∷ xs) h = absurd (omega arith)
  take-all (suc n) [] h = refl
  take-all (suc n) (x ∷ xs) h = ap (◌∷◌ x) (take-all n xs (omega arith))

  pub drop-all : (n : ℕ) (xs : List A) → length xs ≤ n → drop n xs ≡ []
  drop-all zero [] h = refl
  drop-all zero (x ∷ xs) h = absurd (omega arith)
  drop-all (suc n) [] h = refl
  drop-all (suc n) (x ∷ xs) h = drop-all n xs (omega arith)

  pub drop-drop : (m n k : ℕ) (xs : List A) → k ≡ m + n → drop n (drop m xs) ≡ drop k xs
  drop-drop zero n k xs e = ap (λ j. drop j xs) (omega arith)
  drop-drop (suc m) n zero xs e = absurd (omega arith)
  drop-drop (suc m) zero (suc k) [] e = refl
  drop-drop (suc m) (suc n) (suc k) [] e = refl
  drop-drop (suc m) n (suc k) (x ∷ xs) e = drop-drop m n k xs (omega arith)

  pub take-take : (m n : ℕ) (xs : List A) → m ≤ n → take m (take n xs) ≡ take m xs
  take-take zero n xs h = refl
  take-take (suc m) zero xs h = absurd (omega arith)
  take-take (suc m) (suc n) [] h = refl
  take-take (suc m) (suc n) (x ∷ xs) h = ap (◌∷◌ x) (take-take m n xs (omega arith))

  pub drop-take : (m n : ℕ) (xs : List A) → drop m (take n xs) ≡ take (n - m) (drop m xs)
  drop-take zero n xs = ap (λ k. take k xs) (omega arith)
  drop-take (suc m) zero xs = ap (λ k. take k (drop (suc m) xs)) {x = 0} (omega arith)
  drop-take (suc m) (suc n) [] = sym-nil (suc n - suc m)
    where
      sym-nil : (k : ℕ) → [] ≡ take k []
      sym-nil zero = refl
      sym-nil (suc k) = refl
  drop-take (suc m) (suc n) (x ∷ xs) =
      drop-take m n xs ∙ ap (λ k. take k (drop m xs)) {x = n - m} (omega arith)

  pub take-blit : (xs : List A) (i : ℕ) (src : List A) → take i (blit xs i src) ≡ take i xs
  take-blit [] i src = refl
  take-blit (x ∷ xs) zero src = refl
  take-blit (x ∷ xs) (suc i) src = ap (◌∷◌ x) (take-blit xs i src)

  -- Up to the end of what was copied, the array is its old start and then the copy.
  pub take-blit_end :
      (xs : List A) (i n : ℕ) (src : List A)
      → n ≡ i + length src
      → n ≤ length xs
      → take n (blit xs i src) ≡ take i xs ++ src
  take-blit_end [] zero zero [] e h = refl
  take-blit_end [] i (suc n) src e h = absurd (omega arith)
  take-blit_end [] (suc i) zero src e h = absurd (omega arith)
  take-blit_end [] zero zero (s ∷ src) e h = absurd (omega arith)
  take-blit_end (x ∷ xs) zero zero [] e h = refl
  take-blit_end (x ∷ xs) zero (suc n) [] e h = absurd (omega arith)
  take-blit_end (x ∷ xs) zero zero (s ∷ src) e h = absurd (omega arith)
  take-blit_end (x ∷ xs) zero (suc n) (s ∷ src) e h =
      ap (◌∷◌ s) (take-blit_end xs zero n src (omega arith) (omega arith))
  take-blit_end (x ∷ xs) (suc i) zero src e h = absurd (omega arith)
  take-blit_end (x ∷ xs) (suc i) (suc n) src e h =
      ap (◌∷◌ x) (take-blit_end xs i n src (omega arith) (omega arith))

  pub drop-blit :
      (xs : List A) (i n : ℕ) (src : List A)
      → i + length src ≤ n
      → drop n (blit xs i src) ≡ drop n xs
  drop-blit [] i n src h = refl
  drop-blit (x ∷ xs) zero n [] h = refl
  drop-blit (x ∷ xs) zero zero (s ∷ src) h = absurd (omega arith)
  drop-blit (x ∷ xs) zero (suc n) (s ∷ src) h = drop-blit xs zero n src (omega arith)
  drop-blit (x ∷ xs) (suc i) zero src h = absurd (omega arith)
  drop-blit (x ∷ xs) (suc i) (suc n) src h = drop-blit xs i n src (omega arith)

  blit-start : (src rest : List A) → blit (src ++ rest) 0 src ≡ src ++ rest
  blit-start [] [] = refl
  blit-start [] (x ∷ rest) = refl
  blit-start (s ∷ src) rest = ap (◌∷◌ s) (blit-start src rest)

  -- Copying what is there already changes nothing.
  pub blit-same :
      (xs : List A) (i : ℕ) (src rest : List A) → drop i xs ≡ src ++ rest → blit xs i src ≡ xs
  blit-same [] i src rest e = refl
  blit-same (x ∷ xs) zero src rest e = subst (λ l. blit l 0 src ≡ l) (sym e) (blit-start src rest)
  blit-same (x ∷ xs) (suc i) src rest e = ap (◌∷◌ x) (blit-same xs i src rest e)

  -- Copying over the last elements of an array.
  pub blit-last :
      (xs : List A) (i : ℕ) (src : List A)
      → length xs ≡ i + length src
      → blit xs i src ≡ take i xs ++ src
  blit-last xs i src e =
      sym (take-all (length xs) (blit xs i src) (omega (arith, length-blit xs i src)))
      ∙ take-blit_end xs i (length xs) src e (omega arith)

  pub get_or-append :
      (xs ys : List A) (i : ℕ) (d : A) → i < length xs → get_or (xs ++ ys) i d ≡ get_or xs i d
  get_or-append [] ys i d h = absurd (omega arith)
  get_or-append (x ∷ xs) ys zero d h = refl
  get_or-append (x ∷ xs) ys (suc i) d h = get_or-append xs ys i d (omega arith)

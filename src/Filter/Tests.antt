-- ===== src/Filter/Tests.antt =====
-- Two words, and texts with them.
use network.Prelude.{
  Bool, ◌⊎◌, some, none, ℕ, ◌≡◌, refl, ap, arith, get_or, inl, inr, true, false, List, [], ◌∷◌,
}
use network.Filter.{is_exist, exist_loop, lookup, has_end, set_at, set_end, register}
use network.Filter.Words.{Among, register_all}
use network.Filter.Spread.{Subsequence}
use network.Filter.Found.{NoneBegin, is_exist-Among, is_exist-found}

abbrev words : List (List ℕ)
words = (b'a' ∷ b'x' ∷ []) ∷ (b'b' ∷ b'c' ∷ []) ∷ []

-- The second word is in the text, and is missed: its first letter follows that of another word.
missed : is_exist (register_all words) (b'a' ∷ b'b' ∷ b'c' ∷ []) 0 ≡ some (false, b'a' ∷ [])
unfolding is_exist exist_loop lookup has_end set_at set_end register register_all
missed = refl

-- `lenth` is used up at the end of the text's second character, and the third is read all the same.
lenth_exceeded :
    is_exist (register_all words) (b'b' ∷ b'd' ∷ b'c' ∷ []) 1 ≡ some (true, b'b' ∷ b'c' ∷ [])
unfolding is_exist exist_loop lookup has_end set_at set_end register register_all
lenth_exceeded = refl

-- With a `lenth` that is too large, what follows the terminator is read.
behind_text : is_exist (register_all words) (b'd' ∷ []) 3 ≡ none
unfolding is_exist exist_loop lookup has_end set_at set_end register register_all
behind_text = refl

is_exist-Among_example :
    (r : Bool × List ℕ) × (is_exist (register_all words) (b'a' ∷ b'b' ∷ b'x' ∷ []) 0 ≡ some r)
    × ((r.0 ≡ false) ⊎ (Among r.1 words × Subsequence r.1 (b'a' ∷ b'b' ∷ b'x' ∷ [])))
is_exist-Among_example = is_exist-Among words (b'a' ∷ b'b' ∷ b'x' ∷ []) 0 (omega arith)

none_begins : NoneBegin (b'c' ∷ []) words
none_begins = (
  λ v m. elim m [
    | inl e ↦ absurd (omega (arith, ap (λ t. get_or t 0 0) e))
    | inr k ↦ elim k [ inl e ↦ absurd (omega (arith, ap (λ t. get_or t 0 0) e)) | inr q ↦ absurd q ]
  ],
  tt,
)

is_exist-found_example :
    (filter : List ℕ) × (is_exist (register_all words) (b'c' ∷ b'b' ∷ b'c' ∷ []) 0
      ≡ some (true, filter))
    × Among filter words
    × Subsequence filter (b'c' ∷ b'b' ∷ b'c' ∷ [])
is_exist-found_example =
    is_exist-found words (b'c' ∷ []) (b'b' ∷ b'c' ∷ []) [] (inr (inl refl)) none_begins

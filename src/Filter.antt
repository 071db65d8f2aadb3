-- ===== src/Filter.antt =====
-- Network/Common/Filter.cpp: class Filter, a trie of words. The pairs of the map are a list: `end` is the pair of '\0' and
-- NULL, `pair` one of another character and its Filter. Characters of texts are not '\0'.
use network.Prelude.{
  ℕ, zero, suc, ◌-◌, Bool, true, false, Option, none, some, List, [], ◌∷◌, ◌==◌, if◌then◌else◌,
  length,
}
pub mod Words
pub mod Spread
pub mod Found
mod Tests

pub data Filter : Type 0 where
  empty : Filter
  end : Filter → Filter
  pair : ℕ → Filter → Filter → Filter

-- Lookup of a character, and of '\0'.
unfoldable pub lookup : ℕ → Filter → Option Filter
lookup c empty = none
lookup c (end f) = lookup c f
lookup c (pair d word f) = if c == d then some word else lookup c f

unfoldable pub has_end : Filter → Bool
has_end empty = false
has_end (end f) = true
has_end (pair d word f) = has_end f

-- GetCount() is 0.
abbrev pub is_empty : Filter → Bool
is_empty empty = true
is_empty _ = false

-- SetAt of a character, and of '\0'.
unfoldable pub set_at : ℕ → Filter → Filter → Filter
set_at c word empty = pair c word empty
set_at c word (end f) = end (set_at c word f)
set_at c word (pair d old f) = if c == d then pair d word f else pair d old (set_at c word f)

unfoldable pub set_end : Filter → Filter
set_end empty = end empty
set_end (end f) = end f
set_end (pair d word f) = pair d word (set_end f)

abbrev pub word_or_new : Option Filter → Filter
word_or_new none = empty
word_or_new (some word) = word

-- Register
unfoldable pub register : List ℕ → Filter → Filter
register [] f = set_end f
register (c ∷ cs) f = set_at c (register cs (word_or_new (lookup c f))) f

-- The `lenth` that IsExist goes on with.
abbrev pub start_lenth : List ℕ → ℕ → ℕ
start_lenth [] lenth = lenth
start_lenth (c ∷ cs) lenth = if lenth == 0 then length (c ∷ cs) else lenth

-- IsExist up to its loop, whose result is `r`. `none` is a read behind the terminator.
abbrev pub enter : Filter → List ℕ → Option (Bool × List ℕ) → Option (Bool × List ℕ)
enter f [] r = if has_end f then some (true, []) else some (false, [])
enter f (c ∷ cs) r =
    if has_end f then some (true, []) else if is_empty f then some (false, []) else r

abbrev pub write : ℕ → Option (Bool × List ℕ) → Option (Bool × List ℕ)
write c none = none
write c (some (found, filter)) = some (found, c ∷ filter)

-- The loop of IsExist: the answer, and the characters that it writes to `filter`. It counts `lenth` only: the
-- terminator, which is not in the map here, may be read as a character, and what follows it must not be.
unfoldable pub exist_loop : Filter → List ℕ → ℕ → Option (Bool × List ℕ)
exist_loop f [] zero = some (false, [])
exist_loop f [] (suc zero) = some (false, [])
exist_loop f [] (suc (suc lenth)) = none
exist_loop f (c ∷ cs) zero = some (false, [])
exist_loop f (c ∷ cs) (suc lenth) = elim (lookup c f) [
  | some word ↦ write c (enter word cs (exist_loop word cs (start_lenth cs lenth)))
  | none ↦ exist_loop f cs lenth
]

-- IsExist
unfoldable pub is_exist : Filter → List ℕ → ℕ → Option (Bool × List ℕ)
is_exist f string lenth = enter f string (exist_loop f string (start_lenth string lenth))

-- ===== src/StrParser.antt =====
-- Network/Common/StrParser.cpp: class StrParser, the tokens of a text and the value behind a key. A text is the
-- list of its bytes without the terminator; strtok_s and strstr are as the C library documents them.
use network.Prelude.{
  ℕ, zero, suc, ◌+◌, Bool, true, false, Option, none, some, List, [], ◌∷◌, ◌++◌, ◌==◌,
  if◌then◌else◌, length,
}
pub mod Tokens
pub mod Keys

unfoldable pub contains : ℕ → List ℕ → Bool
contains c [] = false
contains c (d ∷ ds) = if c == d then true else contains c ds

-- strtok_s, in parts: the delimiters in front, the rest from the first other byte on, and there the
-- token with what follows the delimiter that ends it.
unfoldable pub leading : List ℕ → List ℕ → List ℕ
leading ds [] = []
leading ds (c ∷ cs) = if contains c ds then c ∷ leading ds cs else []

unfoldable pub skip : List ℕ → List ℕ → List ℕ
skip ds [] = []
skip ds (c ∷ cs) = if contains c ds then skip ds cs else c ∷ cs

unfoldable pub word : List ℕ → List ℕ → List ℕ × List ℕ
word ds [] = ([], [])
word ds (c ∷ cs) = let (w, rest) = word ds cs in if contains c ds then ([], cs) else (c ∷ w, rest)

abbrev pub first_word : List ℕ → List ℕ → Option (List ℕ × List ℕ)
first_word ds [] = none
first_word ds (c ∷ cs) = some (word ds (c ∷ cs))

unfoldable pub strtok : List ℕ → List ℕ → Option (List ℕ × List ℕ)
strtok ds string = first_word ds (skip ds string)

unfoldable pub starts_with : List ℕ → List ℕ → Bool
starts_with [] xs = true
starts_with (k ∷ ks) [] = false
starts_with (k ∷ ks) (x ∷ xs) = if k == x then starts_with ks xs else false

abbrev pub keep_byte : ℕ → Option (List ℕ × List ℕ) → Option (List ℕ × List ℕ)
keep_byte x none = none
keep_byte x (some (before, found)) = some (x ∷ before, found)

-- strstr: what stands in front of the first occurrence of the key, and the text from there on.
unfoldable pub strstr : List ℕ → List ℕ → Option (List ℕ × List ℕ)
strstr key [] = if starts_with key [] then some ([], []) else none
strstr key (x ∷ xs) =
    let later = keep_byte x (strstr key xs) in
    if starts_with key (x ∷ xs) then some ([], x ∷ xs) else later

-- DELIMITERS
abbrev pub default_delimiters : List ℕ
default_delimiters = b' ' ∷ b'\t' ∷ b'\n' ∷ b'\r' ∷ b',' ∷ b';' ∷ b':' ∷ b']' ∷ b'[' ∷ b'-' ∷ []

abbrev pub delimiters_or_default : List ℕ → List ℕ
delimiters_or_default [] = default_delimiters
delimiters_or_default (d ∷ ds) = d ∷ ds

pub record StrParser : Type 0 where
  -- The texts of the list from `_head` on.
  pub tokens : List (List ℕ)
  pub count : ℕ

abbrev pub new_str_parser : StrParser
new_str_parser = record { tokens = []; count = 0 }

abbrev pub with_token : List ℕ → Option (List (List ℕ)) → Option (List (List ℕ))
with_token t none = none
with_token t (some ts) = some (t ∷ ts)

-- The loop of Parsing, on fuel; `none` means that it ran out.
unfoldable pub parsing_loop : ℕ → List ℕ → List ℕ → Option (List (List ℕ))
parsing_loop zero ds next = none
parsing_loop (suc fuel) ds next = elim (strtok ds next) [
  | none ↦ some []
  | some (token, rest) ↦ with_token token (parsing_loop fuel ds rest)
]

-- The first token takes the place of a list that is there.
abbrev pub replace_tokens : List (List ℕ) → List (List ℕ) → List (List ℕ)
replace_tokens old [] = old
replace_tokens old (t ∷ ts) = t ∷ ts

-- Parsing: the count goes on from the last call.
unfoldable pub parsing : List ℕ → List ℕ → StrParser → Option (ℕ × StrParser)
parsing string ds p = elim (parsing_loop (suc (length string)) (delimiters_or_default ds) string) [
  | none ↦ none
  | some ts ↦ some (
    p.count + length ts,
    record { tokens = replace_tokens p.tokens ts; count = p.count + length ts },
  )
]

-- What is behind the first word of the text that was found, and what strtok_s leaves of that text.
abbrev pub behind : Option (List ℕ × List ℕ) → List ℕ
behind none = []
behind (some (w, rest)) = rest

abbrev pub left_over : Option (List ℕ × List ℕ) → List ℕ
left_over none = []
left_over (some (w, rest)) = w

-- `_Find` and the rest of KeyValue: the value, and the tokens after it.
unfoldable pub find_value : List ℕ → List ℕ → List (List ℕ) → Option (List ℕ) × List (List ℕ)
find_value key ds [] = (none, [])
find_value key ds (t ∷ ts) =
    let (value, ts') = find_value key ds ts in
    elim (strstr key t) [
      | none ↦ (value, t ∷ ts')
      | some (before, found) ↦
          let cut = strtok ds found in
          (some (behind cut), (before ++ (leading ds found ++ left_over cut)) ∷ ts)
    ]

-- KeyValue
unfoldable pub key_value : Option (List ℕ) → List ℕ → StrParser → Option (List ℕ) × StrParser
key_value none ds p = (none, p)
key_value (some key) ds p =
    let (value, ts) = find_value key (delimiters_or_default ds) p.tokens in
    (value, record p { tokens = ts })

-- ===== src/StrParser/Tokens.antt =====
-- Parsing, on a text that is made of lines.
use network.Prelude.{
  ℕ, zero, suc, ◌≡◌, ◌<◌, ◌≤◌, ◌+◌, ◌∙◌, refl, ap, true, false, some, List, [], ◌∷◌, ◌++◌, length,
  arith, append_assoc, length-append,
}
use network.StrParser.{
  contains, skip, word, strtok, parsing_loop, parsing, with_token, new_str_parser, replace_tokens,
}

abbrev pub crlf : List ℕ
crlf = b'\r' ∷ b'\n' ∷ []

abbrev pub LacksAll : List ℕ → List ℕ → Type 0
LacksAll ds [] = Unit {0}
LacksAll ds (c ∷ cs) = (contains c ds ≡ false) × LacksAll ds cs

-- The lines of a text: none is empty, and none has a delimiter in it.
abbrev pub IsLine : List ℕ → List ℕ → Type 0
IsLine ds [] = ⊥
IsLine ds (c ∷ cs) = LacksAll ds (c ∷ cs)

abbrev pub AllLines : List ℕ → List (List ℕ) → Type 0
AllLines ds [] = Unit {0}
AllLines ds (l ∷ ls) = IsLine ds l × AllLines ds ls

-- Each line with an end of line behind it.
unfoldable pub joined : List (List ℕ) → List ℕ
joined [] = []
joined (l ∷ ls) = l ++ (crlf ++ joined ls)

-- A line is a token, up to the delimiter behind it.
word-LacksAll :
    (ds l rest : List ℕ) (d : ℕ)
    → LacksAll ds l
    → contains d ds ≡ true
    → word ds (l ++ d ∷ rest) ≡ (l, rest)
unfolding word
word-LacksAll ds [] rest d h e = rw e refl
word-LacksAll ds (c ∷ cs) rest d (a, h) e = rw a (rw (word-LacksAll ds cs rest d h e) refl)

pub strtok_line :
    (ds l rest : List ℕ) (d : ℕ)
    → IsLine ds l
    → contains d ds ≡ true
    → strtok ds (l ++ d ∷ rest) ≡ some (l, rest)
unfolding strtok skip
strtok_line ds [] rest d h e = elim h [ ]
strtok_line ds (c ∷ cs) rest d (a, h) e =
    rw a (ap (λ r. some r) (word-LacksAll ds (c ∷ cs) rest d (a, h) e))

strtok_delimiter :
    (ds rest : List ℕ) (d : ℕ) → contains d ds ≡ true → strtok ds (d ∷ rest) ≡ strtok ds rest
unfolding strtok skip
strtok_delimiter ds rest d e = rw e refl

parsing_loop-delimiter :
    (fuel : ℕ) (ds rest : List ℕ) (d : ℕ)
    → contains d ds ≡ true
    → parsing_loop fuel ds (d ∷ rest) ≡ parsing_loop fuel ds rest
unfolding parsing_loop
parsing_loop-delimiter zero ds rest d e = refl
parsing_loop-delimiter (suc fuel) ds rest d e = rw (strtok_delimiter ds rest d e, parsing_loop)

parsing_loop-line :
    (fuel : ℕ) (ds l rest : List ℕ) (d : ℕ)
    → IsLine ds l
    → contains d ds ≡ true
    → parsing_loop (suc fuel) ds (l ++ d ∷ rest) ≡ with_token l (parsing_loop fuel ds rest)
unfolding parsing_loop
parsing_loop-line fuel ds l rest d h e = rw (strtok_line ds l rest d h e, parsing_loop)

zero_add : (n : ℕ) → 0 + n ≡ n
zero_add n = omega arith

cr_is : contains b'\r' crlf ≡ true
unfolding contains
cr_is = refl

lf_is : contains b'\n' crlf ≡ true
unfolding contains
lf_is = refl

parsing_loop-crlf : (fuel : ℕ) → parsing_loop (suc fuel) crlf crlf ≡ some []
unfolding parsing_loop strtok skip contains
parsing_loop-crlf fuel = refl

length-le-joined : (ls : List (List ℕ)) → length ls ≤ length (joined ls)
unfolding joined
length-le-joined [] = omega arith
length-le-joined (l ∷ ls) = omega (arith, length-le-joined ls, length-append l (crlf ++ joined ls))

parsing_loop-joined :
    (fuel : ℕ) (ls : List (List ℕ))
    → AllLines crlf ls
    → length ls < fuel
    → parsing_loop fuel crlf (joined ls ++ crlf) ≡ some ls
unfolding joined
parsing_loop-joined zero ls a h = absurd (omega (arith, h))
parsing_loop-joined (suc fuel) [] a h = parsing_loop-crlf fuel
parsing_loop-joined (suc fuel) (l ∷ ls) (i, a) h =
    ap (parsing_loop (suc fuel) crlf) {x = (l ++ (crlf ++ joined ls)) ++ crlf}
      {y = l ++ b'\r' ∷ b'\n' ∷ (joined ls ++ crlf)} (append_assoc l (crlf ++ joined ls) crlf)
    ∙ parsing_loop-line fuel crlf l (b'\n' ∷ (joined ls ++ crlf)) b'\r' i cr_is
    ∙ ap (with_token l) (
        parsing_loop-delimiter fuel crlf (joined ls ++ crlf) b'\n' lf_is
        ∙ parsing_loop-joined fuel ls a (omega (arith, h)))

replace_tokens-nil : (ts : List (List ℕ)) → replace_tokens [] ts ≡ ts
replace_tokens-nil [] = refl
replace_tokens-nil (t ∷ ts) = refl

-- Parsing cuts a text into its lines.
pub parsing-joined :
    (ls : List (List ℕ))
    → AllLines crlf ls
    → parsing (joined ls ++ crlf) crlf new_str_parser
      ≡ some (length ls, record { tokens = ls; count = length ls })
unfolding parsing
parsing-joined ls a =
    rw
      (
        parsing_loop-joined (suc (length (joined ls ++ crlf))) ls a
            (omega (arith, length-le-joined ls, length-append (joined ls) crlf)),
        parsing,
      )
      (λ i. some (
        zero_add (length ls) i,
        record { tokens = replace_tokens-nil ls i; count = zero_add (length ls) i },
      ))

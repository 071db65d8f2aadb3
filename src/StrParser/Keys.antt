-- ===== src/StrParser/Keys.antt =====
-- KeyValue, on tokens of which one has the key.
use network.Prelude.{ℕ, ◌≡◌, refl, true, false, none, some, List, [], ◌∷◌, ◌++◌, eq→==}
use network.StrParser.Tokens.{LacksAll, strtok_line}
use network.StrParser.{contains, leading, starts_with, strstr, find_value}

-- No token has the key in it.
abbrev pub AllLack : List ℕ → List (List ℕ) → Type 0
AllLack key [] = Unit {0}
AllLack key (t ∷ ts) = (strstr key t ≡ none) × AllLack key ts

starts_with_self : (key rest : List ℕ) → starts_with key (key ++ rest) ≡ true
unfolding starts_with
starts_with_self [] rest = refl
starts_with_self (k ∷ ks) rest = rw (eq→== k k refl) (starts_with_self ks rest)

strstr_self :
    (k : ℕ) (ks rest : List ℕ) → strstr (k ∷ ks) ((k ∷ ks) ++ rest) ≡ some ([], (k ∷ ks) ++ rest)
unfolding strstr
strstr_self k ks rest = rw (starts_with_self (k ∷ ks) rest) refl

pub find_value-lacks :
    (key ds : List ℕ) (before after : List (List ℕ))
    → AllLack key before
    → find_value key ds (before ++ after)
      ≡ ((find_value key ds after).0, before ++ (find_value key ds after).1)
unfolding find_value
find_value-lacks key ds [] after h = refl
find_value-lacks key ds (t ∷ before) after (a, h) =
    let ih = find_value-lacks key ds before after h in
    rw (a, find_value) (λ i. ((ih i).0, t ∷ (ih i).1))

pub find_value-none :
    (key ds : List ℕ) (ts : List (List ℕ)) → AllLack key ts → find_value key ds ts ≡ (none, ts)
unfolding find_value
find_value-none key ds [] h = refl
find_value-none key ds (t ∷ ts) (a, h) =
    let ih = find_value-none key ds ts h in rw (a, find_value) (λ i. ((ih i).0, t ∷ (ih i).1))

leading-LacksAll :
    (ds l rest : List ℕ) (k : ℕ) → contains k ds ≡ false → leading ds ((k ∷ l) ++ rest) ≡ []
unfolding leading
leading-LacksAll ds l rest k e = rw e refl

-- A token that is the key, a delimiter and a value.
pub find_value-line :
    (k : ℕ) (ks ds value : List ℕ) (d : ℕ) (ts : List (List ℕ))
    → LacksAll ds (k ∷ ks)
    → contains d ds ≡ true
    → find_value (k ∷ ks) ds (((k ∷ ks) ++ d ∷ value) ∷ ts) ≡ (some value, (k ∷ ks) ∷ ts)
unfolding find_value
find_value-line k ks ds value d ts h e =
    rw (strstr_self k ks (d ∷ value), find_value)
      (rw (strtok_line ds (k ∷ ks) value d h e, leading-LacksAll ds ks (d ∷ value) k h.0) refl)

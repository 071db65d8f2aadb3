-- ===== src/Flag/Members.antt =====
-- A flag set is the set of the flags that were enabled last: every other one is off.
use network.Prelude.{
  sym, ℕ, zero, suc, ◌≡◌, ◌≢◌, ◌<◌, ◌∙◌, refl, ap, Bool, true, false, Option, none, some, List, [],
  ◌∷◌, ltb, if◌then◌else◌, get_elem?, set, replicate, length, arith, length-set, length-replicate,
  Bool-cases, inl, inr, ltb→lt, lt→ltb, ◌==◌, eq→==, ne→==,
}
use native.Mathlib.Decide.{ℕ_discrete}
use network.Flag.{Flag, new_flag, write_flag, enable, disable, is_flag}

-- A call, and what a flag set is after the calls, the last of them first.
pub data Call : Type 0 where
  enables : ℕ → Call
  disables : ℕ → Call

unfoldable pub calls : ℕ → List Call → Option Flag
calls count [] = some (new_flag count)
calls count (enables i ∷ cs) = elim (calls count cs) [ none ↦ none | some f ↦ enable i f ]
calls count (disables i ∷ cs) = elim (calls count cs) [ none ↦ none | some f ↦ disable i f ]

-- IsFlag after the calls.
abbrev pub is_flag_after : ℕ → Option Flag → Option Bool
is_flag_after i none = none
is_flag_after i (some f) = is_flag i f

-- The specification: the last call about the flag decides, and none is on at first.
abbrev pub last_of : ℕ → List Call → Bool
last_of i [] = false
last_of i (enables j ∷ cs) = if j == i then true else last_of i cs
last_of i (disables j ∷ cs) = if j == i then false else last_of i cs

get_elem?-set :
    (xs : List Bool) (i : ℕ) (b : Bool) → i < length xs → get_elem? (set xs i b) i ≡ some b
get_elem?-set [] i b h = absurd (omega arith)
get_elem?-set (x ∷ xs) zero b h = refl
get_elem?-set (x ∷ xs) (suc i) b h = get_elem?-set xs i b (omega arith)

get_elem?-set_other :
    (xs : List Bool) (i j : ℕ) (b : Bool) → i ≢ j → get_elem? (set xs i b) j ≡ get_elem? xs j
get_elem?-set_other [] i j b h = refl
get_elem?-set_other (x ∷ xs) zero zero b h = absurd (h refl)
get_elem?-set_other (x ∷ xs) zero (suc j) b h = refl
get_elem?-set_other (x ∷ xs) (suc i) zero b h = refl
get_elem?-set_other (x ∷ xs) (suc i) (suc j) b h = get_elem?-set_other xs i j b (λ e. h (ap suc e))

get_elem?-replicate : (n i : ℕ) → i < n → get_elem? (replicate {A = Bool} n false) i ≡ some false
unfolding replicate
get_elem?-replicate zero i h = absurd (omega arith)
get_elem?-replicate (suc n) zero h = refl
get_elem?-replicate (suc n) (suc i) h = get_elem?-replicate n i (omega arith)

-- Nothing outside the array was read or written, and below the count the flags are `value`.
record Holds (count : ℕ) (value : ℕ → Bool) (r : Option Flag) : Type 0 where
  after : Flag
  result : r ≡ some after
  max_count : after.max_count ≡ count
  storage : length after.flag ≡ count
  flags : (i : ℕ) → i < count → get_elem? after.flag i ≡ some (value i)

new_flag-Holds : (count : ℕ) → Holds count (λ i. false) (some (new_flag count))
unfolding new_flag
new_flag-Holds count = record {
  after = new_flag count;
  result = refl;
  max_count = refl;
  storage = length-replicate {A = Bool} count false;
  flags = λ i h. get_elem?-replicate count i h;
}

-- One guarded write.
write_flag-Holds :
    (count j : ℕ) (b : Bool) (value : ℕ → Bool) (f : Flag)
    → f.max_count ≡ count
    → length f.flag ≡ count
    → ((i : ℕ) → i < count → get_elem? f.flag i ≡ some (value i))
    → Holds count
        (λ i. if j == i then b else value i)
        (if ltb j f.max_count then write_flag j b f else some f)
unfolding write_flag
write_flag-Holds count j b value f m l g = elim (Bool-cases (ltb j f.max_count)) [
  | inl t ↦
      let h = ltb→lt j f.max_count t in
      rw (t, write_flag, lt→ltb j (length f.flag) (omega (arith, h, m, l)))
        (record {
          after = record f { flag = set f.flag j b };
          result = refl;
          max_count = m;
          storage = length-set f.flag j b ∙ l;
          flags = λ i k. elim (ℕ_discrete j i) [
            | yes q ↦ rw (eq→== j i q) (
                ap (get_elem? (set f.flag j b)) (sym q)
                ∙ get_elem?-set f.flag j b (omega (arith, h, m, l)))
            | no q ↦ rw (ne→== j i q) (get_elem?-set_other f.flag j i b q ∙ g i k)
          ];
        })
  | inr t ↦ rw t (record {
    after = f;
    result = refl;
    max_count = m;
    storage = l;
    flags =
        λ i k. rw (ne→== j i (λ q. cc (t, lt→ltb j f.max_count (omega (arith, q, m, k))))) (g i k);
  })
]

calls-Holds : (count : ℕ) (cs : List Call) → Holds count (λ i. last_of i cs) (calls count cs)
unfolding calls enable disable
calls-Holds count [] = new_flag-Holds count
calls-Holds count (enables j ∷ cs) =
    let h = calls-Holds count cs in
    rw (calls, h.result)
      (write_flag-Holds count j true (λ i. last_of i cs) h.after h.max_count h.storage h.flags)
calls-Holds count (disables j ∷ cs) =
    let h = calls-Holds count cs in
    rw (calls, h.result)
      (write_flag-Holds count j false (λ i. last_of i cs) h.after h.max_count h.storage h.flags)

-- After any calls of Enable and Disable on a new set of flags, whatever flags they name, nothing
-- outside the array has been read or written, also by IsFlag, and IsFlag of a flag below the count
-- is what the last call about this flag has made of it, and off where there was none; a flag from
-- the count on is always off.
pub is_flag-calls :
    (count : ℕ) (cs : List Call) (i : ℕ)
    → is_flag_after i (calls count cs) ≡ some (if ltb i count then last_of i cs else false)
unfolding is_flag
is_flag-calls count cs i =
    let h = calls-Holds count cs in
    elim (Bool-cases (ltb i count)) [
      | inl t ↦ rw (h.result, is_flag, h.max_count, t) (h.flags i (ltb→lt i count t))
      | inr t ↦ rw (h.result, is_flag, h.max_count, t) refl
    ]

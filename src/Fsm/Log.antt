-- ===== src/Fsm/Log.antt =====
-- Enter and Exit alternate: the state that was entered last, and not left, is the current one.
use network.Prelude.{
  ℕ, ◌≡◌, ◌∙◌, refl, sym, ap, subst, Bool, true, false, Option, none, some, List, [], ◌∷◌, ◌++◌,
  ◌==◌, if◌then◌else◌, eq→==, Bool-cases, inl, inr,
}
use network.Fsm.{
  Event, enters, exits, Fsm, has, is_type, register, go, change_from, change, revert_state, changes,
  excute, update,
}

-- Which state is active after a log; none where a state is entered while another is active, or one
-- is left that is not active.
abbrev pub replay : List Event → Option ℕ → Option (Option ℕ)
replay [] c = some c
replay (enters t ∷ l) none = replay l (some t)
replay (enters t ∷ l) (some c) = none
replay (exits t ∷ l) none = none
replay (exits t ∷ l) (some c) = if c == t then replay l none else none

-- The log is in order, and the active state is the current one.
abbrev pub IsTraced : Fsm → Type 0
IsTraced s = replay s.log none ≡ some s.cur_state

replay-append :
    (xs ys : List Event) (c d : Option ℕ) → replay xs c ≡ some d → replay (xs ++ ys) c ≡ replay ys d
replay-append [] ys c d e = ap (replay ys) (cc e)
replay-append (enters t ∷ xs) ys none d e = replay-append xs ys (some t) d e
replay-append (enters t ∷ xs) ys (some c) d e = cc e
replay-append (exits t ∷ xs) ys none d e = cc e
replay-append (exits t ∷ xs) ys (some c) d e = elim (Bool-cases (c == t)) [
  | inl q ↦
      ap (λ b. if b then replay (xs ++ ys) none else none) q
      ∙ replay-append xs ys none d (ap (λ b. if b then replay xs none else none) (sym q) ∙ e)
  | inr q ↦ cc (ap (λ b. if b then replay xs none else none) (sym q) ∙ e)
]

go-IsTraced :
    (s : Fsm) (from to : ℕ) → s.cur_state ≡ some from → IsTraced s → IsTraced (go from to s)
go-IsTraced s from to c h =
    replay-append s.log (exits from ∷ enters to ∷ []) none s.cur_state h
    ∙ ap (replay (exits from ∷ enters to ∷ [])) c
    ∙ ap (λ b. if b then some (some to) else none) (eq→== from from refl)

if-holds : (x y : Fsm) (b : Bool) → IsTraced x → IsTraced y → IsTraced (if b then x else y)
if-holds x y true h k = h
if-holds x y false h k = k

change_from-IsTraced :
    (s : Fsm) (cur type : ℕ)
    → s.cur_state ≡ some cur
    → IsTraced s
    → IsTraced (change_from cur type s)
unfolding change_from
change_from-IsTraced s cur type c h = if-holds _ _ (cur == type) (go-IsTraced s cur cur c h) (
    if-holds _ _ (is_type (s.pre_state cur) type) (go-IsTraced s cur type c h) (
      if-holds _ _ s.transition h
        (if-holds _ _ (has type s.states) (go-IsTraced s cur type c h) h)))

-- What a step that does not fault leaves.
abbrev Keeps : Option Fsm → Type 0
Keeps none = Unit {0}
Keeps (some t) = IsTraced t

change-IsTraced : (s : Fsm) (type : ℕ) → IsTraced s → Keeps (change type s)
unfolding change
change-IsTraced s type h = cases s.cur_state refl
  where
    cases : (c : Option ℕ) → s.cur_state ≡ c → Keeps (change type s)
    cases none e = rw (change, e) tt
    cases (some c) e = rw (change, e) (change_from-IsTraced s c type e h)

revert_state-IsTraced : (s : Fsm) → IsTraced s → Keeps (revert_state s)
unfolding revert_state
revert_state-IsTraced s h = cases s.cur_state refl
  where
    with_pre :
        (c : ℕ) (p : Option ℕ) → s.cur_state ≡ some c → s.pre_state c ≡ p → Keeps (revert_state s)
    with_pre c none e q = rw (revert_state, e, q) tt
    with_pre c (some p) e q = rw (revert_state, e, q) (go-IsTraced s c p e h)

    cases : (c : Option ℕ) → s.cur_state ≡ c → Keeps (revert_state s)
    cases none e = rw (revert_state, e) tt
    cases (some c) e = with_pre c (s.pre_state c) e refl

changes-IsTraced : (types : List ℕ) (s : Fsm) → IsTraced s → Keeps (changes types s)
unfolding changes
changes-IsTraced [] s h = h
changes-IsTraced (type ∷ types) s h =
    cases (change type s) refl (change-IsTraced s type h) (changes-IsTraced types)
  where
    cases :
        (o : Option Fsm)
        → change type s ≡ o
        → Keeps o
        → ((t : Fsm) → IsTraced t → Keeps (changes types t))
        → Keeps (changes (type ∷ types) s)
    cases none e k rest = rw (changes, e) tt
    cases (some t) e k rest = rw (changes, e) (rest t k)

excute-IsTraced :
    (types : List ℕ) (stays : Bool) (s : Fsm) → IsTraced s → Keeps (excute types stays s)
unfolding excute
excute-IsTraced types stays s h =
    cases (changes types (record s { transition = false })) refl
      (changes-IsTraced types (record s { transition = false }) h)
  where
    ends :
        (t : Fsm) (b c : Bool)
        → IsTraced t
        → Keeps (if b then some t else (if c then some t else revert_state t))
    ends t true c k = k
    ends t false true k = k
    ends t false false k = revert_state-IsTraced t k

    cases :
        (o : Option Fsm)
        → changes types (record s { transition = false }) ≡ o
        → Keeps o
        → Keeps (excute types stays s)
    cases none e k = rw (excute, e) tt
    cases (some t) e k = rw (excute, e) (ends t stays t.transition k)

-- The life of a machine: a first state is registered as the default one, others are registered, and
-- Change and Update are called, as long as no step faults.
pub data Reach (s : Fsm) (first : ℕ) : Fsm → Type 0 where
  starts : Reach s first (register first true s)
  registers : {t : Fsm} (type : ℕ) → Reach s first t → Reach s first (register type false t)
  calls : {t u : Fsm} (type : ℕ) → Reach s first t → change type t ≡ some u → Reach s first u
  updates :
      {t u : Fsm} (types : List ℕ) (stays : Bool)
      → Reach s first t
      → update types stays t ≡ some u
      → Reach s first u

update-IsTraced :
    (types : List ℕ) (stays : Bool) (s : Fsm) → IsTraced s → Keeps (update types stays s)
unfolding update
update-IsTraced types stays s h = cases s.states refl
  where
    cases : (l : List ℕ) → s.states ≡ l → Keeps (update types stays s)
    cases [] e = rw (update, e) h
    cases (t ∷ ts) e = rw (update, e) (excute-IsTraced types stays s h)

-- A machine with an empty log registers its first state as the default one, others as no default,
-- and then Change and Update are called as long as none faults: then a state is entered only while
-- none is active, only the active state is left, and the one that is active is the current state.
pub Reach-IsTraced : {s : Fsm} {first : ℕ} {t : Fsm} → s.log ≡ [] → Reach s first t → IsTraced t
unfolding register
Reach-IsTraced {s} {first} e starts = ap (λ l. replay (l ++ enters first ∷ []) none) e
Reach-IsTraced e (registers type r) = Reach-IsTraced e r
Reach-IsTraced e (calls {t = t} type r q) =
    subst Keeps q (change-IsTraced t type (Reach-IsTraced e r))
Reach-IsTraced e (updates {t = t} types stays r q) =
    subst Keeps q (update-IsTraced types stays t (Reach-IsTraced e r))

-- Update of a machine with states, whose current state has no previous one, reads through NULL
-- when Excute ends the state without a call of Change.
pub update_faults :
    (s : Fsm) (type cur : ℕ) (types : List ℕ)
    → s.states ≡ type ∷ types
    → s.cur_state ≡ some cur
    → s.pre_state cur ≡ none
    → update [] false s ≡ none
unfolding update excute changes revert_state
update_faults s type cur types e c p = rw (update, e, excute, changes, revert_state, c, p) refl

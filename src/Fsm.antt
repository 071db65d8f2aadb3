-- ===== src/Fsm.antt =====
-- Network/Common/Fsm.h: the state machine. A state is its type, one FsmState object for each type;
-- `none` where a step answers is the fault of reading through a NULL or unset pointer. The methods of
-- the states are the application's: Enter and Exit are logged and call no method of the machine,
-- and Excute is the list of its calls of Change and its answer.
use network.Prelude.{
  ℕ, zero, suc, ◌≡◌, Bool, true, false, Option, none, some, List, [], ◌∷◌, ◌++◌, ◌==◌,
  if◌then◌else◌,
}
pub mod Log
mod Tests

pub data Event : Type 0 where
  enters : ℕ → Event
  exits : ℕ → Event

pub record Fsm : Type 0 where
  -- The keys of `_states`.
  pub states : List ℕ
  -- `_preState` of a state.
  pub pre_state : ℕ → Option ℕ
  pub cur_state : Option ℕ
  pub transition : Bool
  pub log : List Event

-- The map has the key.
abbrev pub has : ℕ → List ℕ → Bool
has type [] = false
has type (t ∷ ts) = if t == type then true else has type ts

-- Regster
unfoldable pub register : ℕ → Bool → Fsm → Fsm
register type default_state s =
    if default_state
    then record s {
      states = type ∷ s.states;
      log = s.log ++ enters type ∷ [];
      cur_state = some type;
    }
    else record s { states = type ∷ s.states }

-- Exit of `from`, Enter of `to`, and `to` becomes the current state.
abbrev pub go : ℕ → ℕ → Fsm → Fsm
go from to s = record s { cur_state = some to; log = s.log ++ exits from ∷ enters to ∷ [] }

abbrev pub is_type : Option ℕ → ℕ → Bool
is_type none type = false
is_type (some p) type = p == type

-- Change, from the current state `cur`.
unfoldable pub change_from : ℕ → ℕ → Fsm → Fsm
change_from cur type s =
    if cur == type
    then go cur cur s
    else (if is_type (s.pre_state cur) type
        then go cur type s
        else (if s.transition
            then s
            else (if has type s.states
                then go cur type (record s {
                  transition = true;
                  pre_state = λ t. if t == type then some cur else s.pre_state t;
                })
                else s)))

-- Change
unfoldable pub change : ℕ → Fsm → Option Fsm
change type s = elim s.cur_state [ none ↦ none | some cur ↦ some (change_from cur type s) ]

-- RevertState
unfoldable pub revert_state : Fsm → Option Fsm
revert_state s = elim s.cur_state [
  | none ↦ none
  | some cur ↦ elim (s.pre_state cur) [
    | none ↦ none
    | some pre ↦ some (go cur pre (record s { transition = true }))
  ]
]

-- The calls of Change that Excute makes.
unfoldable pub changes : List ℕ → Fsm → Option Fsm
changes [] s = some s
changes (type ∷ types) s = elim (change type s) [ none ↦ none | some t ↦ changes types t ]

-- Update from `_transition = false` on, where `stays` is what Excute answers.
unfoldable pub excute : List ℕ → Bool → Fsm → Option Fsm
excute types stays s = elim (changes types (record s { transition = false })) [
  | none ↦ none
  | some t ↦ if stays then some t else (if t.transition then some t else revert_state t)
]

-- Update
unfoldable pub update : List ℕ → Bool → Fsm → Option Fsm
update types stays s = elim s.states [ [] ↦ some s | t ∷ ts ↦ excute types stays s ]

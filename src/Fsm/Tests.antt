-- ===== src/Fsm/Tests.antt =====
-- The theorem on the state machine at a machine of two states.
use network.Prelude.{◌≡◌, ◌++◌, refl, true, false, none, some, [], ◌∷◌}
use network.Fsm.{
  enters, exits, Fsm, register, change, change_from, update, excute, changes, revert_state,
}
use network.Fsm.Log.{IsTraced, starts, registers, calls, updates, Reach-IsTraced}

abbrev fresh : Fsm
fresh = record {
  states = [];
  pre_state = λ _. none;
  cur_state = none;
  transition = false;
  log = [];
}

abbrev ready : Fsm
ready = register 2 false (register 1 true fresh)

-- From state 1 to 2 by Change, and back by an Update whose Excute ends the state.
abbrev moved : Fsm
moved = change_from 1 2 ready

moved-ready : change 2 ready ≡ some moved
unfolding change change_from register
moved-ready = refl

abbrev back : Fsm
back = record moved {
  transition = true;
  cur_state = some 1;
  log = moved.log ++ exits 2 ∷ enters 1 ∷ [];
}

update-moved : update [] false moved ≡ some back
unfolding change_from register update excute changes revert_state
update-moved = refl

Reach-IsTraced_example : IsTraced back
Reach-IsTraced_example =
    Reach-IsTraced refl (updates [] false (calls 2 (registers 2 starts) moved-ready) update-moved)

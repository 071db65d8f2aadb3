-- ===== src/Functor.antt =====
-- HNetFunctor in Network/HNetFunctor.h and HNetFunctor.cpp: the functions for the packet types. A
-- function is a number, and NULL is none.
use network.Prelude.{
  ℕ, ◌≡◌, Option, none, some, List, [], ◌∷◌, ltb, if◌then◌else◌, get_or, get_elem?, set, replicate,
}
use network.Packet.{max_type}
pub mod Dispatch
mod Tests

-- HNetFunctor(): `_funcs`.
unfoldable pub new_functor : List (Option ℕ)
new_functor = replicate 0xFFFF none

-- _RegFunction, for a packet whose default constructor gives `type`.
unfoldable pub reg_function : ℕ → ℕ → List (Option ℕ) → List (Option ℕ)
reg_function type func funcs =
    if ltb max_type type
    then funcs
    else (elim (get_or funcs type none) [ some other ↦ funcs | none ↦ set funcs type (some func) ])

-- _CallFunction: the function that is called, or none for the answer false; outside of the array
-- there is no answer.
unfoldable pub call_function : ℕ → List (Option ℕ) → Option (Option ℕ)
call_function type funcs = get_elem? funcs type

-- ===== src/Functor/Tests.antt =====
-- The theorem on dispatch at three registrations.
use network.Prelude.{ℕ, ◌≡◌, refl, some, List, [], ◌∷◌, arith}
use network.Packet.{check}
use network.Functor.{call_function}
use network.Functor.Dispatch.{registered, call_function-registered}

-- Function 7 came first for type 3, function 8 is refused.
abbrev registrations : List (ℕ × ℕ)
registrations = (3, 8) ∷ (4, 9) ∷ (3, 7) ∷ []

call_function-registered_example : call_function 3 (registered registrations) ≡ some (some 7)
unfolding check
call_function-registered_example =
    call_function-registered registrations (record { size = 11; type = 3 }) (omega arith) refl

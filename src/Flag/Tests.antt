-- ===== src/Flag/Tests.antt =====
-- The theorem on flags at a set of three.
use network.Prelude.{◌≡◌, true, some, [], ◌∷◌}
use network.Flag.Members.{enables, disables, calls, is_flag_after, is_flag-calls}

is_flag-calls_example :
    is_flag_after 1 (calls 3 (enables 1 ∷ disables 1 ∷ enables 7 ∷ [])) ≡ some true
is_flag-calls_example = is_flag-calls 3 (enables 1 ∷ disables 1 ∷ enables 7 ∷ []) 1

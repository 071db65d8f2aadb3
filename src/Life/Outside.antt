-- ===== src/Life/Outside.antt =====
-- What the code does not provide for: a connection that fails before _AddSession.
use network.Prelude.{ℕ, zero, suc, ◌≡◌, refl, false, List, [], ◌∷◌, ◌++◌, inl, inr, Bool-cases}
use network.Life.{Act, accepted, release, Answer, fails, Session, run_act}

-- A thread runs `n` of its parts, each with the same answer.
pub run_thread : ℕ → Answer → List Act → Session → List Act × Session
run_thread zero answer k s = (k, s)
run_thread (suc n) answer [] s = ([], s)
run_thread (suc n) answer (a ∷ k) s =
    let (next, t) = run_act a answer s in run_thread n answer (next ++ k) t

-- If the accept of a session that is not registered, with its one reference, completes and its
-- address cannot be read, the thread runs to its end, the count is 0, nothing new is pending, and
-- the session is not registered: it is not accepted again.
pub accepted-lost :
    (s : Session)
    → s.count ≡ 1
    → s.registered ≡ false
    → let (k, t) = run_thread 9 fails (accepted ∷ release ∷ []) s in
      (k ≡ []) × (t.count ≡ 0) × (t.pending ≡ s.pending) × (t.registered ≡ false)
unfolding run_thread run_act
accepted-lost s c r = elim (Bool-cases s.socket) [
  | inl y ↦ rw (y, r, c) (refl, refl, refl, refl)
  | inr n ↦ rw (n, r, c) (refl, refl, refl, refl)
]

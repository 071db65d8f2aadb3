-- ===== src/Life/Ending.antt =====
-- After Disconnect: what is still to run and pending ends in _DelSession.
use network.Prelude.{
  ℕ, suc, ◌≡◌, ◌≤◌, ◌<◌, ◌+◌, refl, ap, Bool, true, List, ◌∷◌, ◌++◌, arith, Bool-cases,
  Option-cases, inl, inr, ◌==◌, sub32,
}
use network.Life.{
  Act, open_socket, accept_reference, accept_ex, accepted, on_connect, initialize, associate,
  add_session, on_connected, recv, recv_reference, wsa_recv, recved, sended, send_reference,
  wsa_send, disconnect, on_disconnect, disconnect_reference, cancel, release, on_release,
  del_session, on_disconnected, close, Answer, succeeds, fails, half, Io, accept_io, recv_io,
  send_io, completion, Session, System, run_act, weigh, runs, completes, run_part, complete_io,
}
use network.Life.Weight.{weight, weight-run_of, weight-has, sum, sum_complete}
use network.Life.Effects.{run_act-Effects, bit, is_set, stage, accepts, reports_disconnected}
use network.Life.Count.{Reach, later, references, Reach-count, Reach-few}
use network.Life.Reports.{set-le}
use network.Life.Stages.{Reach-IsStaged}

-- How many steps a part may still lead to, when Disconnect has been called.
abbrev pub rank : Act → ℕ
rank release = 3
rank on_release = 2
rank del_session = 1
rank cancel = 1
rank disconnect_reference = 5
rank on_disconnect = 6
rank (disconnect r) = 7
rank recv = 1
rank on_connected = 2
rank recved = 8
rank wsa_recv = 13
rank recv_reference = 14
rank sended = 1
rank wsa_send = 11
rank send_reference = 12
rank _ = 0

abbrev pub rank_io : Io → ℕ
rank_io recv_io = 12
rank_io send_io = 5
rank_io accept_io = 0

abbrev pub to_run : System → ℕ
to_run s = weight rank s.threads + sum rank_io s.session.pending

-- Nothing is left to send when a send completes.
abbrev pub NoMore : Act → Answer → Type 0
NoMore a answer = (a ≡ sended) → (answer ≡ succeeds) → ⊥

-- One step of a session that stays registered takes away from what is still to run.
module _ (s : Session) (set : is_set s.reason ≡ 1) where
  run_act-rank :
      (a : Act) (answer : Answer)
      → stage a + reports_disconnected a ≡ 0
      → NoMore a answer
      → let (next, t) = run_act a answer s in
        t.registered ≡ true
        → (weigh rank next + sum rank_io t.pending) + 1 ≤ rank a + sum rank_io s.pending
  unfolding run_act
  run_act-rank open_socket answer h more = absurd (omega (arith, h))
  run_act-rank accept_reference answer h more = absurd (omega (arith, h))
  run_act-rank accept_ex answer h more = absurd (omega (arith, h))
  run_act-rank accepted answer h more = absurd (omega (arith, h))
  run_act-rank on_connect answer h more = absurd (omega (arith, h))
  run_act-rank initialize answer h more = absurd (omega (arith, h))
  run_act-rank associate answer h more = absurd (omega (arith, h))
  run_act-rank add_session answer h more = absurd (omega (arith, h))
  run_act-rank on_connected answer h more = λ g. omega arith
  run_act-rank recv answer h more = elim (Option-cases s.reason) [
    | inl n ↦ absurd (omega (arith, set, ap is_set n))
    | inr (q, y) ↦ rw y (λ g. omega arith)
  ]
  run_act-rank recv_reference answer h more = λ g. omega arith
  run_act-rank wsa_recv succeeds h more = λ g. omega arith
  run_act-rank wsa_recv fails h more = λ g. omega arith
  run_act-rank wsa_recv half h more = λ g. omega arith
  run_act-rank recved succeeds h more = λ g. omega arith
  run_act-rank recved fails h more = λ g. omega arith
  run_act-rank recved half h more = λ g. omega arith
  run_act-rank sended succeeds h more = absurd (more refl refl)
  run_act-rank sended fails h more = λ g. omega arith
  run_act-rank sended half h more = λ g. omega arith
  run_act-rank send_reference answer h more = λ g. omega arith
  run_act-rank wsa_send succeeds h more = λ g. omega arith
  run_act-rank wsa_send fails h more = λ g. omega arith
  run_act-rank wsa_send half h more = λ g. omega arith
  run_act-rank (disconnect r) answer h more = λ g. omega arith
  run_act-rank on_disconnect answer h more = elim (Bool-cases s.socket) [
    | inl y ↦ rw y (λ g. omega arith)
    | inr n ↦ rw n (λ g. omega arith)
  ]
  run_act-rank disconnect_reference answer h more = λ g. omega arith
  run_act-rank cancel answer h more = λ g. omega arith
  run_act-rank release answer h more = elim (Bool-cases (sub32 s.count 1 == 0)) [
    | inl y ↦ rw y (λ g. omega arith)
    | inr n ↦ rw n (λ g. omega arith)
  ]
  run_act-rank on_release answer h more = λ g. omega arith
  run_act-rank del_session answer h more = elim (Bool-cases s.registered) [
    | inl y ↦ rw y (λ g. omega (arith, ap bit g))
    | inr n ↦ rw n (λ g. omega (arith, ap bit g))
  ]
  run_act-rank on_disconnected answer h more = absurd (omega (arith, h))
  run_act-rank close answer h more = absurd (omega (arith, h))

-- Steps of the threads and completions of the system, on which the session stays registered, and no send
-- follows another one.
pub data Winds (s : System) : ℕ → System → Type 0 where
  begin : Winds s 0 s
  runs_on :
      {n : ℕ} {t : System} (xs : List (List Act)) (a : Act) (k : List Act) (ys : List (List Act))
      (answer : Answer)
      → Winds s n t
      → t.threads ≡ xs ++ (a ∷ k) ∷ ys
      → NoMore a answer
      → (run_part answer a t.session xs k ys).session.registered ≡ true
      → references (run_part answer a t.session xs k ys) < 4294967296
      → Winds s (suc n) (run_part answer a t.session xs k ys)
  completes_on :
      {n : ℕ} {t : System} (xs : List Io) (io : Io) (ys : List Io)
      → Winds s n t
      → t.session.pending ≡ xs ++ io ∷ ys
      → references (complete_io t io (xs ++ ys)) < 4294967296
      → Winds s (suc n) (complete_io t io (xs ++ ys))

-- What holds on the way.
record IsWound (others : Bool) (s : System) (n : ℕ) (t : System) : Type 0 where
  pub reached : Reach others t
  pub registered : t.session.registered ≡ true
  pub set : is_set t.session.reason ≡ 1
  pub less : n + to_run t ≤ to_run s

rank-completion : (io : Io) → accepts io ≡ 0 → weigh rank (completion io) + 1 ≤ rank_io io
rank-completion accept_io e = absurd (omega (arith, e))
rank-completion recv_io e = omega arith
rank-completion send_io e = omega arith

Winds-IsWound :
    {others : Bool} {s t : System} {n : ℕ}
    → Reach others s
    → s.session.registered ≡ true
    → is_set s.session.reason ≡ 1
    → Winds s n t
    → IsWound others s n t
Winds-IsWound r g h begin = record { reached = r; registered = g; set = h; less = omega arith }
Winds-IsWound {others} {s} r g h (runs_on {n = n} {t = t} xs a k ys answer w e more on few) =
    let v = Winds-IsWound r g h w in
    let staged = Reach-IsStaged v.reached in
    let next = (run_act a answer t.session).0 in
    let f =
      run_act-Effects t.session (omega (arith, Reach-few v.reached, Reach-count v.reached)) a
        answer in
    let still : stage a + reports_disconnected a ≡ 0 = omega (
      arith,
      staged.stages,
      ap bit v.registered,
      weight-has stage xs a k ys e,
      weight-has reports_disconnected xs a k ys e,
    ) in
    record {
      reached = later v.reached (runs xs a k ys answer e) few;
      registered = on;
      set = omega (arith, still, v.set, f.laws.4, set-le (run_act a answer t.session).1.reason);
      less = omega (
        arith,
        v.less,
        run_act-rank t.session v.set a answer still more on,
        weight-run_of rank xs a next k ys e,
      );
    }
Winds-IsWound r g h (completes_on xs io ys w e few) =
    let v = Winds-IsWound r g h w in
    let staged = Reach-IsStaged v.reached in
    let none_accepted = sum_complete accepts xs io ys e in
    record {
      reached = later v.reached (completes xs io ys e) few;
      registered = v.registered;
      set = v.set;
      less = omega (
        arith,
        v.less,
        sum_complete rank_io xs io ys e,
        rank-completion io (omega (arith, staged.stages, ap bit v.registered, none_accepted)),
      );
    }

-- Once a registered session has been given a reason by Disconnect, its threads and the completions
-- of the system can take only so many more steps while it stays registered as the parts that are
-- to run and the pending I/Os are worth, if no completed send is followed by another one.
pub Winds-bound :
    {others : Bool} {s t : System} {n : ℕ}
    → Reach others s
    → s.session.registered ≡ true
    → is_set s.session.reason ≡ 1
    → Winds s n t
    → n ≤ to_run s
Winds-bound r g h w = omega (arith, (Winds-IsWound r g h w).less)

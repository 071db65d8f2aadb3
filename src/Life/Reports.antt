-- ===== src/Life/Reports.antt =====
-- OnConnected and OnDisconnected: in turns, and with the reason of a Disconnect.
use network.Prelude.{
  ◌≡◌, ◌≤◌, ◌<◌, ◌+◌, refl, ap, inl, inr, subst, sym, Bool, true, false, Option, none, some, List,
  [], ◌∷◌, ◌++◌, length, arith, Bool-cases,
}
use native.Mathlib.Decide.{ℕ_discrete}
use network.Life.{
  Answer, Act, Io, accept_io, recv_io, send_io, called, Notice, connected_event, disconnected_event,
  Reason, Session, System, run_act, weigh, runs, completes, calls, intrudes,
}
use network.Life.Weight.{weight, weight-run_of, weight-call, weight-has, sum}
use network.Life.Effects.{
  Effects, run_act-Effects, bit, is_set, stage, receives, reports_connected, reports_disconnected,
  is_on_connected, is_on_disconnected, is_final, final, is_token, logged,
}
use network.Life.Alone.{one, one-lone_all, bit-le, only_part}
use network.Life.Count.{Reach, start, later, references, Reach-count, Reach-few}
use network.Life.Stages.{IsStaged, Reach-IsStaged, completion-Brings, called-Quiet}
use network.Life.Solo.{IsSolo, Reach-IsSolo}

-- Reports online log: the calls, the last one first, are OnConnected and OnDisconnected in turns,
-- OnConnected the first and, while online, the last, and OnDisconnected got a reason.
pub data Reports : Bool → List Notice → Type 0 where
  offline : Reports false []
  comes : {log : List Notice} → Reports false log → Reports true (connected_event ∷ log)
  goes :
      {log : List Notice} (reason : Reason)
      → Reports true log
      → Reports false (disconnected_event (some reason) ∷ log)

pub record IsReported (s : System) : Type 0 where
  pub reasons : weight reports_disconnected s.threads ≤ is_set s.session.reason
  pub online : Bool
  pub reports : Reports online s.session.log
  pub turn :
      bit online + weight reports_connected s.threads
      ≡ weight reports_disconnected s.threads + bit s.session.registered

-- A part of the last steps of a connection is the only one that there is to run.
final_alone :
    {s : System} (xs : List (List Act)) (a : Act) (k : List Act) (ys : List (List Act))
    → IsSolo s
    → s.threads ≡ xs ++ (a ∷ k) ∷ ys
    → final a ≡ 1
    → (references s ≡ 0) × (weight one s.threads ≡ 1)
final_alone {s} xs a k ys solo e h =
    let free : references s ≡ 0 = omega (arith, solo.ending, weight-has final xs a k ys e, h) in
    let ones = one-lone_all s.threads solo.shape (omega (arith, free)) in
    (free, omega (arith, ones, solo.alone, weight-has one xs a k ys e))

pub set-le : (o : Option Reason) → is_set o ≤ 1
set-le none = omega arith
set-le (some r) = omega arith

set_reason : (o : Option Reason) → is_set o ≡ 1 → (r : Reason) × (o ≡ some r)
set_reason none e = absurd (omega (arith, e))
set_reason (some r) e = (r, refl)

bit-one : (b : Bool) → bit b ≡ 1 → b ≡ true
bit-one true e = refl
bit-one false e = absurd (omega (arith, e))

bit-none : (b : Bool) → bit b ≡ 0 → b ≡ false
bit-none true e = absurd (omega (arith, e))
bit-none false e = refl

-- What a part does to the log and to the turn of its calls.
module _ (online : Bool) (a : Act) (s : Session) (reports : Reports online s.log)
    (disjoint : reports_connected a + reports_disconnected a ≤ 1)
    (first : reports_connected a ≡ 1 → online ≡ false)
    (last : reports_disconnected a ≡ 1 → (online ≡ true) × (is_set s.reason ≡ 1)) where
  logged-Reports :
      (after : Bool) × Reports after (logged a s)
      × (bit after + reports_disconnected a ≡ bit online + reports_connected a)
  logged-Reports = elim (Bool-cases (is_on_connected a)) [
    | inl c ↦
        let e = first (ap bit c) in
        rw c (
          true,
          comes (subst (λ b. Reports b s.log) e reports),
          omega (arith, disjoint, ap bit c, ap bit e),
        )
    | inr c ↦ elim (Bool-cases (is_on_disconnected a)) [
      | inl d ↦
          let (e, f) = last (ap bit d) in
          let (r, g) = set_reason s.reason f in
          rw (c, d, g)
            (false, goes r (subst (λ b. Reports b s.log) e reports), omega (arith, ap bit e))
      | inr d ↦ rw (c, d) (online, reports, omega arith)
    ]
  ]

receives-le : (l : List Io) → sum receives l ≤ length l
receives-le [] = omega arith
receives-le (accept_io ∷ l) = omega (arith, receives-le l)
receives-le (recv_io ∷ l) = omega (arith, receives-le l)
receives-le (send_io ∷ l) = omega (arith, receives-le l)

-- A part `a` of a session that has been reported on rightly so far.
module _ {s : System} (v : IsReported s) (staged : IsStaged s) (solo : IsSolo s)
    (xs : List (List Act)) (a : Act) (k : List Act) (ys : List (List Act))
    (e : s.threads ≡ xs ++ (a ∷ k) ∷ ys) where
  turn_first : reports_connected a ≡ 1 → v.online ≡ false
  turn_first h =
      bit-none v.online
        (omega (arith, h, v.turn, staged.stages, weight-has reports_connected xs a k ys e))

  turn_last :
      reports_disconnected a ≤ final a
      → reports_connected a + reports_disconnected a ≤ 1
      → reports_disconnected a ≡ 1
      → (v.online ≡ true) × (is_set s.session.reason ≡ 1)
  turn_last f d h =
      let (_, ones) = final_alone xs a k ys solo e (omega (arith, f, h, bit-le (is_final a))) in
      let here = weight-has reports_disconnected xs a k ys e in
      (
        bit-one v.online (
            omega (
              arith,
              h,
              d,
              v.turn,
              staged.stages,
              here,
              only_part is_on_connected xs a k ys e ones,
            )),
        omega (arith, h, v.reasons, here, set-le s.session.reason),
      )

  -- del_session finds the reason that ended the connection.
  reason_found :
      (answer : Answer)
      → Effects a s.session (run_act a answer s.session)
      → 0 < weigh reports_disconnected (run_act a answer s.session).0
      → is_set s.session.reason ≡ 1
  reason_found answer f h =
      let (free, ones) =
        final_alone xs a k ys solo e (omega (arith, f.laws.5, h, bit-le (is_final a))) in
      omega (
        arith,
        h,
        free,
        f.laws.4,
        f.laws.5,
        staged.tokens,
        only_part is_token xs a k ys e ones,
        receives-le s.session.pending,
        set-le s.session.reason,
      )

  run-reasons :
      (answer : Answer)
      → Effects a s.session (run_act a answer s.session)
      → weight reports_disconnected (xs ++ ((run_act a answer s.session).0 ++ k) ∷ ys)
        ≤ is_set (run_act a answer s.session).1.reason
  run-reasons answer f =
      let next = (run_act a answer s.session).0 in
      let disconnects = weight-run_of reports_disconnected xs a next k ys e in
      let on_way = weight-has stage xs a k ys e in
      elim (ℕ_discrete (weigh reports_disconnected next) 0) [
        | yes z ↦ omega (
          arith,
          z,
          disconnects,
          on_way,
          v.reasons,
          staged.stages,
          f.laws.4,
          set-le s.session.reason,
        )
        | no d ↦ omega (
          arith,
          d,
          disconnects,
          on_way,
          staged.stages,
          f.laws.4,
          f.laws.5,
          reason_found answer f (omega (arith, d)),
        )
      ]

pub Reach-IsReported : {s : System} → Reach false s → IsReported s
Reach-IsReported start = record {
  reasons = omega arith;
  online = false;
  reports = offline;
  turn = refl;
}
Reach-IsReported (later {s = s} r (runs xs a k ys answer e) few) =
    let v = Reach-IsReported r in
    let st = Reach-IsStaged r in
    let solo = Reach-IsSolo r in
    let f = run_act-Effects s.session (omega (arith, Reach-few r, Reach-count r)) a answer in
    let next = (run_act a answer s.session).0 in
    let connects = weight-run_of reports_connected xs a next k ys e in
    let disconnects = weight-run_of reports_disconnected xs a next k ys e in
    let disconnects_one = weight-has reports_disconnected xs a k ys e in
    let connects_one = weight-has reports_connected xs a k ys e in
    let (after, reports, turn) =
      logged-Reports v.online a s.session v.reports f.laws.5.4 (turn_first v st solo xs a k ys e)
        (turn_last v st solo xs a k ys e f.laws.5.3 f.laws.5.4) in
    record {
      reasons = run-reasons v st solo xs a k ys e answer f;
      online = after;
      reports = subst (Reports after) (sym f.log) reports;
      turn =
          omega
            (arith, turn, v.turn, connects, disconnects, connects_one, disconnects_one, f.laws.5.0);
    }
Reach-IsReported (later r (completes xs io ys e) few) =
    let v = Reach-IsReported r in
    let b = completion-Brings io in
    record {
      reasons = omega (arith, v.reasons, b);
      online = v.online;
      reports = v.reports;
      turn = omega (arith, v.turn, b);
    }
Reach-IsReported (later r (calls xs a k ys c e h) few) =
    let v = Reach-IsReported r in
    let q = called-Quiet c in
    let d = weight-call reports_disconnected xs (called c) a k ys e in
    record {
      reasons = omega (arith, v.reasons, q, d);
      online = v.online;
      reports = v.reports;
      turn = omega (arith, v.turn, q, d, weight-call reports_connected xs (called c) a k ys e);
    }
Reach-IsReported (later r (intrudes c e) few) = cc e

-- Under the same conditions (any interleaving and answers, calls only on threads that will release
-- a reference, fewer than 2 ^ 32 references) OnConnected and OnDisconnected of a session are
-- called in turns, OnConnected first, and OnDisconnected always gets the reason of a Disconnect;
-- and the last call was OnConnected, counting one that is due, exactly if the session is
-- registered, or its OnDisconnected is due.
pub Reach-Reports :
    {s : System}
    → Reach false s
    → (online : Bool) × Reports online s.session.log
      × (bit online + weight reports_connected s.threads
          ≡ weight reports_disconnected s.threads + bit s.session.registered)
Reach-Reports r = let v = Reach-IsReported r in (v.online, v.reports, v.turn)

-- ===== src/Life/Stages.antt =====
-- The way of a session to its next connection, and that a connected session goes on to receive.
use network.Prelude.{◌≡◌, ◌≤◌, ◌<◌, ◌+◌, ap, Bool, true, none, arith}
use network.Life.{
  Act, Io, accept_io, recv_io, send_io, Call, call_disconnect, call_send, called, completion,
  System, run_act, weigh, runs, completes, calls, intrudes,
}
use network.Life.Weight.{weight, weight-run_of, weight-call, weight-has, sum, sum_complete}
use network.Life.Effects.{
  run_act-Effects, bit, is_set, stage, accepts, token, receives, reports_connected,
  reports_disconnected, is_token,
}
use network.Life.Alone.{one, bit-le, weight-kind}
use network.Life.Count.{Reach, start, later, Reach-count, Reach-few}

-- A session is on its way to one connection at most, and not while it is registered; and one that is
-- registered, and that no reason was given to, is going to receive or receiving.
pub record IsStaged (s : System) : Type 0 where
  pub stages :
      ((weight stage s.threads + weight reports_disconnected s.threads)
          + sum accepts s.session.pending)
        + bit s.session.registered
      ≤ 1
  pub tokens :
      bit s.session.registered
      ≤ (weight token s.threads + sum receives s.session.pending) + is_set s.session.reason

-- What the completion of an I/O brings.
abbrev pub Brings : Io → Type 0
Brings io =
    (weigh stage (completion io) ≡ accepts io)
    × (receives io ≤ weigh token (completion io))
    × (weigh reports_connected (completion io) ≡ 0)
    × (weigh reports_disconnected (completion io) ≡ 0)

pub completion-Brings : (io : Io) → Brings io
completion-Brings accept_io = omega arith
completion-Brings recv_io = omega arith
completion-Brings send_io = omega arith

abbrev pub Quiet : Act → Type 0
Quiet a = (stage a ≡ 0) × (reports_connected a ≡ 0) × (reports_disconnected a ≡ 0)

pub called-Quiet : (c : Call) → Quiet (called c)
called-Quiet call_disconnect = omega arith
called-Quiet call_send = omega arith

pub Reach-IsStaged : {others : Bool} {s : System} → Reach others s → IsStaged s
Reach-IsStaged start = record { stages = omega arith; tokens = omega arith }
Reach-IsStaged (later {s = s} r (runs xs a k ys answer e) few) =
    let v = Reach-IsStaged r in
    let f = run_act-Effects s.session (omega (arith, Reach-few r, Reach-count r)) a answer in
    let next = (run_act a answer s.session).0 in
    let on_way = weight-run_of stage xs a next k ys e in
    record {
      stages =
          omega (
            arith,
            v.stages,
            f.laws.3,
            on_way,
            weight-run_of reports_disconnected xs a next k ys e,
          );
      tokens = omega (
        arith,
        v.stages,
        v.tokens,
        f.laws.3,
        f.laws.4,
        f.laws.5,
        weight-has stage xs a k ys e,
        weight-has token xs a k ys e,
        weight-run_of token xs a next k ys e,
        bit-le (run_act a answer s.session).1.registered,
      );
    }
Reach-IsStaged (later r (completes xs io ys e) few) =
    let v = Reach-IsStaged r in
    let b = completion-Brings io in
    record {
      stages = omega (arith, v.stages, b, sum_complete accepts xs io ys e);
      tokens = omega (arith, v.tokens, b, sum_complete receives xs io ys e);
    }
Reach-IsStaged (later r (calls xs a k ys c e h) few) =
    let v = Reach-IsStaged r in
    let q = called-Quiet c in
    record {
      stages = omega (
        arith,
        v.stages,
        q,
        weight-call stage xs (called c) a k ys e,
        weight-call reports_disconnected xs (called c) a k ys e,
      );
      tokens = omega (arith, v.tokens, weight-call token xs (called c) a k ys e);
    }
Reach-IsStaged (later r (intrudes c e) few) =
    let v = Reach-IsStaged r in
    let q = called-Quiet c in
    record { stages = omega (arith, v.stages, q); tokens = omega (arith, v.tokens) }

-- Whatever has happened to a session, with calls on any threads and fewer than 2 ^ 32 references:
-- when no thread has anything to run on it, and it is registered and has no reason to be
-- disconnected, a receive is pending.
pub Reach-receiving :
    {others : Bool} {s : System}
    → Reach others s
    → weight one s.threads ≡ 0
    → s.session.registered ≡ true
    → s.session.reason ≡ none
    → 0 < sum receives s.session.pending
Reach-receiving {s = s} r idle here free = omega (
  arith,
  (Reach-IsStaged r).tokens,
  weight-kind is_token s.threads,
  idle,
  ap bit here,
  ap is_set free,
)

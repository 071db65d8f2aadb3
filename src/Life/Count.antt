-- ===== src/Life/Count.antt =====
-- The reference count of a session: Reference and Release of RefCount, over everything that runs.
use network.Prelude.{ℕ, ◌≡◌, ◌<◌, ◌+◌, refl, Bool, length, arith}
use network.Life.{
  Io, accept_io, recv_io, send_io, Call, call_disconnect, call_send, called, completion, System,
  initial, run_act, holds, weigh, Step, runs, completes, calls, intrudes,
}
use network.Life.Weight.{weight, weight-run_of, weight-call, length_complete}
use network.Life.Effects.{run_act-Effects}

-- The references that there should be: one for each I/O that the system has not completed, and
-- those that threads have.
abbrev pub references : System → ℕ
references s = weight holds s.threads + length s.session.pending

-- What may happen to a session, as long as there are fewer than 2 ^ 32 references.
pub data Reach (others : Bool) : System → Type 0 where
  start : Reach others initial
  later :
      {s t : System} → Reach others s → Step others s t → references t < 4294967296 → Reach others t

pub holds-called : (c : Call) → holds (called c) ≡ 0
holds-called call_disconnect = refl
holds-called call_send = refl

pub holds-completion : (io : Io) → weigh holds (completion io) ≡ 1
holds-completion accept_io = refl
holds-completion recv_io = refl
holds-completion send_io = refl

pub Reach-few : {others : Bool} {s : System} → Reach others s → references s < 4294967296
Reach-few start = omega arith
Reach-few (later r step few) = few

-- In any interleaving of the threads on a session, with any answers of the system and calls of
-- Disconnect and Send on any threads, as long as there are fewer than 2 ^ 32 references, the count
-- of RefCount is the number of pending I/Os and of references that threads have.
pub Reach-count : {others : Bool} {s : System} → Reach others s → s.session.count ≡ references s
Reach-count start = refl
Reach-count (later {s = s} r (runs xs a k ys answer e) few) =
    let n = Reach-count r in
    let f = run_act-Effects s.session (omega (arith, Reach-few r)) a answer in
    omega (arith, f.laws.0, weight-run_of holds xs a (run_act a answer s.session).0 k ys e)
Reach-count (later r (completes xs io ys e) few) =
    omega (arith, Reach-count r, holds-completion io, length_complete xs io ys e)
Reach-count (later r (calls xs a k ys c e h) few) =
    omega (arith, Reach-count r, weight-call holds xs (called c) a k ys e, holds-called c)
Reach-count (later r (intrudes c e) few) = omega (arith, Reach-count r, holds-called c)

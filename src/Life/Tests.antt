-- ===== src/Life/Tests.antt =====
-- Connections that come and go, on concrete runs.
use network.Prelude.{◌+◌, ◌≡◌, ◌≤◌, ◌<◌, refl, Bool, true, false, none, some, List, [], ◌∷◌, arith}
use network.Life.{
  Act, open_socket, accept_reference, accept_ex, accepted, on_connect, initialize, associate,
  add_session, on_connected, recv, recv_reference, wsa_recv, recved, disconnect, on_disconnect,
  close, disconnect_reference, cancel, release, on_release, del_session, on_disconnected,
  client_left, succeeds, half, accept_io, recv_io, connected_event, disconnected_event, System,
  run_act, runs, completes,
}
use network.Life.Weight.{sum, weight}
use network.Life.Alone.{one}
use network.Life.Effects.{receives, bit, reports_connected, reports_disconnected}
use network.Life.Count.{Reach, start, later, references, Reach-count}
use network.Life.Solo.{Reach-final}
use network.Life.Stages.{Reach-receiving}
use network.Life.Reports.{Reports, Reach-Reports}
use network.Life.Ending.{Winds, begin, runs_on, to_run, Winds-bound}

abbrev waiting : System
waiting = record {
  session = record {
    count = 1;
    reason = none;
    socket = true;
    registered = false;
    pending = accept_io ∷ [];
    log = [];
  };
  threads = [] ∷ [];
}

waiting-Reach : Reach false waiting
unfolding run_act
waiting-Reach =
    later
      (later (later start (runs [] open_socket [] [] succeeds refl) (omega arith))
        (runs [] accept_reference [] [] succeeds refl) (omega arith))
      (runs [] accept_ex [] [] succeeds refl) (omega arith)

abbrev connected : System
connected = record {
  session = record {
    count = 1;
    reason = none;
    socket = true;
    registered = true;
    pending = recv_io ∷ [];
    log = connected_event ∷ [];
  };
  threads = [] ∷ [] ∷ [];
}

connected-Reach : Reach false connected
unfolding run_act
connected-Reach =
    let rest : List (List Act) = [] ∷ [] in
    let held = release ∷ [] in
    let twice = release ∷ release ∷ [] in
    let a = later waiting-Reach (completes [] accept_io [] refl) (omega arith) in
    let b = later a (runs [] accepted held rest succeeds refl) (omega arith) in
    let c = later b (runs [] on_connect held rest succeeds refl) (omega arith) in
    let d = later c (runs [] initialize twice rest succeeds refl) (omega arith) in
    let e = later d (runs [] associate twice rest succeeds refl) (omega arith) in
    let f = later e (runs [] add_session twice rest succeeds refl) (omega arith) in
    let g = later f (runs [] on_connected twice rest succeeds refl) (omega arith) in
    let h = later g (runs [] recv twice rest succeeds refl) (omega arith) in
    let i = later h (runs [] recv_reference twice rest succeeds refl) (omega arith) in
    let j = later i (runs [] wsa_recv twice rest succeeds refl) (omega arith) in
    let k = later j (runs [] release held rest succeeds refl) (omega arith) in
    later k (runs [] release [] rest succeeds refl) (omega arith)

-- The client has gone, and `_DelSession` is next.
abbrev leaving : System
leaving = record {
  session = record {
    count = 0;
    reason = some client_left;
    socket = true;
    registered = true;
    pending = [];
    log = connected_event ∷ [];
  };
  threads = (del_session ∷ []) ∷ [] ∷ [] ∷ [];
}

leaving-Reach : Reach false leaving
unfolding run_act
leaving-Reach =
    let rest : List (List Act) = [] ∷ [] ∷ [] in
    let held = release ∷ [] in
    let a = later connected-Reach (completes [] recv_io [] refl) (omega arith) in
    let b = later a (runs [] recved held rest half refl) (omega arith) in
    let c = later b (runs [] (disconnect client_left) held rest half refl) (omega arith) in
    let d = later c (runs [] on_disconnect held rest half refl) (omega arith) in
    let e = later d (runs [] disconnect_reference held rest half refl) (omega arith) in
    let f = later e (runs [] cancel (release ∷ release ∷ []) rest half refl) (omega arith) in
    let g = later f (runs [] release held rest half refl) (omega arith) in
    let h = later g (runs [] release [] rest half refl) (omega arith) in
    later h (runs [] on_release [] rest half refl) (omega arith)

abbrev left : System
left = record {
  session = record {
    count = 0;
    reason = some client_left;
    socket = true;
    registered = false;
    pending = [];
    log = disconnected_event (some client_left) ∷ connected_event ∷ [];
  };
  threads = (close ∷ []) ∷ [] ∷ [] ∷ [];
}

left-Reach : Reach false left
unfolding run_act
left-Reach =
    let rest : List (List Act) = [] ∷ [] ∷ [] in
    later (later leaving-Reach (runs [] del_session [] rest half refl) (omega arith))
      (runs [] on_disconnected [] rest half refl) (omega arith)

Reach-count_example : connected.session.count ≡ references connected
Reach-count_example = Reach-count connected-Reach

Reach-final_example :
    (leaving.session.count ≡ 0) × (leaving.session.pending ≡ []) × (weight one leaving.threads ≡ 1)
Reach-final_example = Reach-final [] del_session [] ([] ∷ [] ∷ []) leaving-Reach refl refl

Reach-receiving_example : 0 < sum receives connected.session.pending
Reach-receiving_example = Reach-receiving connected-Reach refl refl refl

Reach-Reports_example :
    (online : Bool) × Reports online left.session.log
    × (bit online + weight reports_connected left.threads
        ≡ weight reports_disconnected left.threads + bit left.session.registered)
Reach-Reports_example = Reach-Reports left-Reach

-- Disconnect has set its reason.
abbrev asked : System
asked = record {
  session = record connected.session { pending = []; reason = some client_left };
  threads = (on_disconnect ∷ release ∷ []) ∷ [] ∷ [] ∷ [];
}

asked-Reach : Reach false asked
unfolding run_act
asked-Reach =
    let rest : List (List Act) = [] ∷ [] ∷ [] in
    let held = release ∷ [] in
    let a = later connected-Reach (completes [] recv_io [] refl) (omega arith) in
    let b = later a (runs [] recved held rest half refl) (omega arith) in
    later b (runs [] (disconnect client_left) held rest half refl) (omega arith)

abbrev referenced : System
referenced = record {
  session = asked.session;
  threads = (disconnect_reference ∷ release ∷ []) ∷ [] ∷ [] ∷ [];
}

asked-Winds : Winds asked 1 referenced
unfolding run_act
asked-Winds =
    runs_on [] on_disconnect (release ∷ []) ([] ∷ [] ∷ []) half begin refl (λ e. cc e) refl
      (omega arith)

Winds-bound_example : 1 ≤ to_run asked
Winds-bound_example = Winds-bound asked-Reach refl refl asked-Winds

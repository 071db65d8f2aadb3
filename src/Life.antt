-- ===== src/Life.antt =====
-- The life of a session in Network/HNetIo.cpp (Completion, Accept, Accepted, Disconnect, Recv, Recved, _Send),
-- Network/HNetSession.cpp (_OnConnect, _OnDisconnect, OnRelease, Open, Close), Network/Common/RefCount.cpp and, for an
-- acceptor, _Connected and _Disconnected in Network/HNet.cpp and Network/HNetAcceptor.cpp. Each thread
-- that works on the session is the list of the atomic parts that it has still to run, the
-- next one first; what the system answers to a call is the environment's.
use network.Prelude.{
  ℕ, ◌≡◌, ◌≤◌, ◌<◌, ◌+◌, ◌%◌, Bool, true, false, Option, none, some, List, [], ◌∷◌, ◌++◌, ◌==◌,
  if◌then◌else◌, add32, sub32,
}
pub mod Weight
pub mod Effects
pub mod Alone
pub mod Count
pub mod Solo
pub mod Stages
pub mod Reports
pub mod Ending
pub mod Outside
mod Tests

-- The texts that Disconnect is called with.
pub data Reason : Type 0 where
  open_failed : Reason
  accept_failed : Reason
  no_address : Reason
  initialize_failed : Reason
  associate_failed : Reason
  register_failed : Reason
  recv_failed : Reason
  bad_packet : Reason
  client_left : Reason
  send_failed : Reason
  by_user : Reason

pub data Io : Type 0 where
  accept_io : Io
  recv_io : Io
  send_io : Io

pub data Notice : Type 0 where
  connected_event : Notice
  disconnected_event : Option Reason → Notice

-- The atomic parts of the functions, each named for the call that it begins with.
pub data Act : Type 0 where
  open_socket : Act
  accept_reference : Act
  accept_ex : Act
  accepted : Act
  on_connect : Act
  initialize : Act
  associate : Act
  add_session : Act
  on_connected : Act
  recv : Act
  recv_reference : Act
  wsa_recv : Act
  recved : Act
  sended : Act
  send_reference : Act
  wsa_send : Act
  disconnect : Reason → Act
  on_disconnect : Act
  disconnect_reference : Act
  cancel : Act
  release : Act
  on_release : Act
  del_session : Act
  on_disconnected : Act
  close : Act

-- What the system, the ring of sends or the packets of a receive answer. `half` is an Open that
-- fails behind WSASocketW, and a receive of no bytes.
pub data Answer : Type 0 where
  succeeds : Answer
  fails : Answer
  half : Answer

pub record Session : Type 0 where
  -- `_count`
  pub count : ℕ
  -- `_disconnect`
  pub reason : Option Reason
  -- `_socket` is not INVALID_SOCKET.
  pub socket : Bool
  -- `_connectedSessions` has the session.
  pub registered : Bool
  -- What the system has been asked for and has not completed.
  pub pending : List Io
  -- The calls of OnConnected and OnDisconnected, the last one first.
  pub log : List Notice

-- The interlocked operations of Reference, Release and Disconnect.
abbrev pub increment : Session → Session
increment s = record s { count = add32 s.count 1 }

abbrev pub decrement : Session → Session
decrement s = record s { count = sub32 s.count 1 }

abbrev pub first_reason : Reason → Option Reason → Option Reason
first_reason r none = some r
first_reason r (some q) = some q

abbrev pub post_io : Io → Session → Session
post_io io s = record s { pending = io ∷ s.pending }

-- The atomic parts: what the thread runs next because of each, and the new state.
abbrev pub run_open : Answer → Session → List Act × Session
run_open succeeds s = (accept_reference ∷ [], record s { socket = true })
run_open fails s = (disconnect open_failed ∷ [], record s { socket = false })
run_open half s = (disconnect open_failed ∷ [], record s { socket = true })

abbrev pub run_accept_reference : Session → List Act × Session
run_accept_reference s = (accept_ex ∷ [], increment s)

abbrev pub run_accept_ex : Answer → Session → List Act × Session
run_accept_ex succeeds s = ([], post_io accept_io s)
run_accept_ex _ s = (disconnect accept_failed ∷ release ∷ [], s)

abbrev pub run_accepted : Answer → Session → List Act × Session
run_accepted succeeds s = (on_connect ∷ [], s)
run_accepted _ s = (disconnect no_address ∷ [], s)

abbrev pub run_on_connect : Session → List Act × Session
run_on_connect s = (initialize ∷ release ∷ [], increment s)

abbrev pub run_initialize : Answer → Session → List Act × Session
run_initialize succeeds s = (associate ∷ [], record s { reason = none })
run_initialize _ s = (disconnect initialize_failed ∷ [], s)

abbrev pub run_associate : Answer → Session → List Act × Session
run_associate succeeds s = (add_session ∷ [], s)
run_associate _ s = (disconnect associate_failed ∷ [], s)

abbrev pub run_add_session : Session → List Act × Session
run_add_session s =
    if s.registered
    then (disconnect register_failed ∷ [], s)
    else (on_connected ∷ [], record s { registered = true })

abbrev pub run_on_connected : Session → List Act × Session
run_on_connected s = (recv ∷ [], record s { log = connected_event ∷ s.log })

abbrev pub run_recv : Session → List Act × Session
run_recv s = (elim s.reason [ none ↦ recv_reference ∷ [] | some _ ↦ [] ], s)

abbrev pub run_recv_reference : Session → List Act × Session
run_recv_reference s = (wsa_recv ∷ [], increment s)

abbrev pub run_wsa_recv : Answer → Session → List Act × Session
run_wsa_recv succeeds s = ([], post_io recv_io s)
run_wsa_recv _ s = (disconnect recv_failed ∷ release ∷ [], s)

abbrev pub run_recved : Answer → Session → List Act × Session
run_recved succeeds s = (recv ∷ [], s)
run_recved fails s = (disconnect bad_packet ∷ [], s)
run_recved half s = (disconnect client_left ∷ [], s)

abbrev pub run_sended : Answer → Session → List Act × Session
run_sended succeeds s = (send_reference ∷ [], s)
run_sended _ s = ([], s)

abbrev pub run_send_reference : Session → List Act × Session
run_send_reference s = (wsa_send ∷ [], increment s)

abbrev pub run_wsa_send : Answer → Session → List Act × Session
run_wsa_send succeeds s = ([], post_io send_io s)
run_wsa_send _ s = (disconnect send_failed ∷ release ∷ [], s)

abbrev pub run_disconnect : Reason → Session → List Act × Session
run_disconnect r s = (on_disconnect ∷ [], record s { reason = first_reason r s.reason })

abbrev pub run_on_disconnect : Session → List Act × Session
run_on_disconnect s = (if s.socket then disconnect_reference ∷ [] else [], s)

abbrev pub run_disconnect_reference : Session → List Act × Session
run_disconnect_reference s = (cancel ∷ release ∷ [], increment s)

abbrev pub run_cancel : Session → List Act × Session
run_cancel s = ([], s)

abbrev pub run_release : Session → List Act × Session
run_release s = (if sub32 s.count 1 == 0 then on_release ∷ [] else [], decrement s)

-- OnRelease, up to `_DelSession`. HNetIoSend::Clear is left out: nothing here depends on the ring. Where the
-- ring was never made (a session whose first accept fails before Initialize) it reads through NULL, and the
-- run of the program ends there, while the one here goes on.
abbrev pub run_on_release : Session → List Act × Session
run_on_release s = (del_session ∷ [], s)

abbrev pub run_del_session : Session → List Act × Session
run_del_session s =
    if s.registered then (on_disconnected ∷ [], record s { registered = false }) else ([], s)

abbrev pub run_on_disconnected : Session → List Act × Session
run_on_disconnected s = (close ∷ [], record s { log = disconnected_event s.reason ∷ s.log })

abbrev pub run_close : Session → List Act × Session
run_close s = (open_socket ∷ [], record s { socket = false })

unfoldable pub run_act : Act → Answer → Session → List Act × Session
run_act open_socket answer s = run_open answer s
run_act accept_reference answer s = run_accept_reference s
run_act accept_ex answer s = run_accept_ex answer s
run_act accepted answer s = run_accepted answer s
run_act on_connect answer s = run_on_connect s
run_act initialize answer s = run_initialize answer s
run_act associate answer s = run_associate answer s
run_act add_session answer s = run_add_session s
run_act on_connected answer s = run_on_connected s
run_act recv answer s = run_recv s
run_act recv_reference answer s = run_recv_reference s
run_act wsa_recv answer s = run_wsa_recv answer s
run_act recved answer s = run_recved answer s
run_act sended answer s = run_sended answer s
run_act send_reference answer s = run_send_reference s
run_act wsa_send answer s = run_wsa_send answer s
run_act (disconnect r) answer s = run_disconnect r s
run_act on_disconnect answer s = run_on_disconnect s
run_act disconnect_reference answer s = run_disconnect_reference s
run_act cancel answer s = run_cancel s
run_act release answer s = run_release s
run_act on_release answer s = run_on_release s
run_act del_session answer s = run_del_session s
run_act on_disconnected answer s = run_on_disconnected s
run_act close answer s = run_close s

-- HNetIo::Completion
abbrev pub completion : Io → List Act
completion accept_io = accepted ∷ release ∷ []
completion recv_io = recved ∷ release ∷ []
completion send_io = sended ∷ release ∷ []

-- What the application calls: Disconnect, and a Send that finds no send under way.
pub data Call : Type 0 where
  call_disconnect : Call
  call_send : Call

abbrev pub called : Call → Act
called call_disconnect = disconnect by_user
called call_send = send_reference

pub record System : Type 0 where
  pub session : Session
  pub threads : List (List Act)

-- The first Accept of a session that has just been made.
abbrev pub initial : System
initial = record {
  session = record {
    count = 0;
    reason = none;
    socket = false;
    registered = false;
    pending = [];
    log = [];
  };
  threads = (open_socket ∷ []) ∷ [];
}

-- The references that a thread has, or has just taken for an I/O.
abbrev pub holds : Act → ℕ
holds release = 1
holds accept_ex = 1
holds wsa_recv = 1
holds wsa_send = 1
holds _ = 0

abbrev pub weigh : (Act → ℕ) → List Act → ℕ
weigh w [] = 0
weigh w (a ∷ k) = w a + weigh w k

-- A thread runs its next part.
abbrev pub run_part : Answer → Act → Session → List (List Act) → List Act → List (List Act) → System
run_part answer a s xs k ys = record {
  session = (run_act a answer s).1;
  threads = xs ++ ((run_act a answer s).0 ++ k) ∷ ys;
}

-- The system completes an I/O, which a worker takes up.
abbrev pub complete_io : System → Io → List Io → System
complete_io s io rest = record {
  session = record s.session { pending = rest };
  threads = completion io ∷ s.threads;
}

-- A thread runs its next part; the system completes an I/O; the application makes a call on a
-- thread that will release a reference, as one in a callback does; or, where others may call too,
-- on another thread.
pub data Step (others : Bool) (s : System) : System → Type 0 where
  runs :
      (xs : List (List Act)) (a : Act) (k : List Act) (ys : List (List Act)) (answer : Answer)
      → s.threads ≡ xs ++ (a ∷ k) ∷ ys
      → Step others s (run_part answer a s.session xs k ys)
  completes :
      (xs : List Io) (io : Io) (ys : List Io)
      → s.session.pending ≡ xs ++ io ∷ ys
      → Step others s (complete_io s io (xs ++ ys))
  calls :
      (xs : List (List Act)) (a : Act) (k : List Act) (ys : List (List Act)) (c : Call)
      → s.threads ≡ xs ++ (a ∷ k) ∷ ys
      → 0 < weigh holds k
      → Step others s (record { session = s.session; threads = xs ++ (called c ∷ a ∷ k) ∷ ys })
  intrudes :
      (c : Call)
      → others ≡ true
      → Step others s (record { session = s.session; threads = (called c ∷ []) ∷ s.threads })

-- ===== src/Connector.antt =====
-- The session of an HNetConnector: Network/HNetConnector.cpp, with HNetIoConnect, HNetIoReconnect and Completion in
-- Network/HNetIo.cpp, and HNetSession and HNet, for a connector that is not single-threaded. Each call of
-- the application and each completion runs to its end before the next; what the system answers is an argument.
-- The application calls Connect and Disconnect, and never Send: HNetIoSend, its WSASends and the references that they
-- hold are not in this model, and the theorems are about a connector that only receives.
use network.Prelude.{
  ℕ, zero, suc, ◌≡◌, ◌<◌, ◌+◌, ◌-◌, Bool, true, false, List, [], ◌∷◌, ◌==◌, if◌then◌else◌,
}
pub mod Releases
pub mod Connecting
pub mod Sound
pub mod Stuck
mod Tests

pub data Answer : Type 0 where
  succeeds fails : Answer

-- What Open comes to: no socket, a socket that an option is refused for, or a socket.
pub data Opening : Type 0 where
  no_socket half_open opened : Opening

pub data Report : Type 0 where
  on_connected on_reconnected on_disconnected : Report

-- `socket` tells whether `_socket` is valid, `reason` whether `_disconnect` is set, `registered` whether the session is in _connectedSessions, `receiving`
-- whether a WSARecv is pending, and `posted` how many I/Os of HNetIoReconnect are. The last call of the
-- application's functions is the first of `log`.
pub record Connector : Type 0 where
  pub socket : Bool
  pub registered : Bool
  pub reconnect : Bool
  pub reason : Bool
  pub count : ℕ
  pub receiving : Bool
  pub posted : ℕ
  pub log : List Report

abbrev pub new_connector : Connector
new_connector = record {
  socket = false;
  registered = false;
  reconnect = true;
  reason = false;
  count = 0;
  receiving = false;
  posted = 0;
  log = [];
}

-- HNetConnector::_Disconnected
unfoldable pub disconnected : Connector → Connector
disconnected c =
    if c.registered
    then (if c.reconnect
        then record c { registered = false; log = on_disconnected ∷ c.log; posted = c.posted + 1 }
        else record c { registered = false; log = on_disconnected ∷ c.log; socket = false })
    else c

-- Reference and Release, with OnRelease. Only a count that is not 0 is released. HNetIoSend::Clear is left out: with no
-- sends the ring is empty. Where Initialize has made no ring yet (a Connect that is left with a socket, then
-- Disconnect) it reads through NULL, and the run of the program ends there, while the one here goes on.
abbrev pub reference : Connector → Connector
reference c = record c { count = c.count + 1 }

unfoldable pub release : Connector → Connector
release c =
    if c.count == 1 then disconnected (record c { count = 0 }) else record c { count = c.count - 1 }

-- HNetIoDisconnect::Disconnect with `_OnDisconnect`.
unfoldable pub disconnect : Connector → Connector
disconnect c =
    let c' = record c { reason = true } in if c.socket then release (reference c') else c'

-- HNetIoRecv::Recv, where WSARecv gives the answer.
unfoldable pub recv : Answer → Connector → Connector
recv succeeds c = if c.reason then c else record c { count = c.count + 1; receiving = true }
recv fails c = if c.reason then c else release (disconnect (reference c))

-- HNet::_Connected, where Initialize and CreateIoCompletionPort together give the answer.
unfoldable pub connected : Answer → Connector → Bool × Connector
connected fails c = (false, disconnect c)
connected succeeds c =
    if c.registered
    then (false, disconnect c)
    else (true, record c { registered = true; reason = false })

-- `_OnConnect` and `_OnReconnect`, with the function of HNetConnector that they call.
unfoldable pub on_connect : Report → Answer → Answer → Connector → Connector
on_connect report associate receive c =
    let (fine, c') = connected associate (reference c) in
    release (if fine then recv receive (record c' { log = report ∷ c'.log }) else c')

-- HNetIoConnect::Connect: the answer, and the connector. HNetSession::Open closes the old socket first.
unfoldable pub connect_session :
    Answer → Opening → Answer → Answer → Answer → Connector → Bool × Connector
connect_session fails opening connect associate receive c = (false, c)
connect_session succeeds no_socket connect associate receive c =
    (false, record c { socket = false })
connect_session succeeds half_open connect associate receive c = (false, record c { socket = true })
connect_session succeeds opened fails associate receive c = (false, record c { socket = false })
connect_session succeeds opened succeeds associate receive c =
    (true, on_connect on_connected associate receive (record c { socket = true }))

abbrev pub finish_connect : Bool × Connector → Bool × Connector
finish_connect (true, c) = (true, record c { reconnect = true })
finish_connect (false, c) = (false, c)

-- HNetConnector::Connect, after `_Create` and Create.
unfoldable pub connect_connector :
    Answer → Opening → Answer → Answer → Answer → Connector → Bool × Connector
connect_connector address opening connect associate receive c =
    if c.socket
    then (true, c)
    else finish_connect (connect_session address opening connect associate receive c)

-- HNetConnector::Disconnect
unfoldable pub disconnect_connector : Connector → Connector
disconnect_connector c = disconnect (record c { reconnect = false })

-- HNetIoReconnect::Reconnect, on the completion of what was posted.
unfoldable pub reconnect_session : Opening → Answer → Answer → Answer → Connector → Connector
reconnect_session no_socket connect associate receive c = record c {
  posted = c.posted - 1;
  socket = false;
}
reconnect_session half_open connect associate receive c = record c {
  posted = c.posted - 1;
  socket = true;
}
reconnect_session opened fails associate receive c = record c { socket = true }
reconnect_session opened succeeds associate receive c =
    on_connect on_reconnected associate receive (record c { posted = c.posted - 1; socket = true })

-- Completion of a WSARecv, the RECV case of Completion: Recved goes on with Recv, or disconnects. The case of SEND
-- does not come, since nothing is sent.
unfoldable pub completion : Answer → Answer → Connector → Connector
completion succeeds receive c = release (recv receive (record c { receiving = false }))
completion fails receive c = release (disconnect (record c { receiving = false }))

-- What can happen next: a call of Connect or Disconnect, the completion of a receive, or an attempt to reconnect.
pub data Step : Connector → Connector → Type 0 where
  call_connect :
      (address : Answer) (opening : Opening) (connect associate receive : Answer) (c : Connector)
      → Step c (connect_connector address opening connect associate receive c).1
  call_disconnect : (c : Connector) → Step c (disconnect_connector c)
  received :
      (more receive : Answer) (c : Connector)
      → c.receiving ≡ true
      → Step c (completion more receive c)
  reconnected :
      (opening : Opening) (connect associate receive : Answer) (c : Connector)
      → 0 < c.posted
      → Step c (reconnect_session opening connect associate receive c)

pub data Reach : Connector → Type 0 where
  start : Reach new_connector
  next : {c c' : Connector} → Reach c → Step c c' → Reach c'

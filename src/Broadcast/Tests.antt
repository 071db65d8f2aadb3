-- ===== src/Broadcast/Tests.antt =====
-- The theorem on `_SendAll` and `_Send` with three sessions, of which two are connected.
use network.Prelude.{refl, true, false, none, some, [], ◌∷◌, arith}
use network.Packet.Cipher.{WsaSend}
use network.Send.{SendIo, empty_gathering}
use network.Send.Queue.{IsValid}
use network.Sessions.{Table}
use network.Sessions.Slots
use network.Broadcast.{Net}
use network.Broadcast.Delivered.{SentTwice, send_all-send_to}

abbrev fresh_ring : SendIo
fresh_ring = record {
  ahead = [];
  tail = empty_gathering;
  free = [];
  made = true;
  pending = false;
  locked = false;
  due = false;
  sent = [];
}

fresh_ring-IsValid : IsValid fresh_ring
fresh_ring-IsValid = record {
  made = refl;
  unlocked = refl;
  free = tt;
  busy = λ q. cc q;
  idle = λ _. (refl, refl, refl);
}

abbrev three_sessions : Table
three_sessions = record {
  sessions = 65536 ∷ 131073 ∷ 196610 ∷ [];
  connected = some 0 ∷ none ∷ some 2 ∷ [];
  id = 3;
}

three_sessions-IsValid : Slots.IsValid three_sessions
three_sessions-IsValid = record {
  slots = (refl, (refl, (refl, tt)));
  connects = (refl, (tt, (refl, tt)));
  room = omega arith;
  small = omega arith;
}

abbrev net : Net
net = record { table = three_sessions; rings = fresh_ring ∷ fresh_ring ∷ fresh_ring ∷ [] }

abbrev greeting : WsaSend
greeting = record { bytes = 5 ∷ 0 ∷ 1 ∷ 0 ∷ 42 ∷ []; encrypted = false }

send_all-send_to_example : SentTwice 0 196610 2 greeting net
send_all-send_to_example =
    send_all-send_to 0 196610 2 greeting net three_sessions-IsValid
      (fresh_ring-IsValid, (fresh_ring-IsValid, (fresh_ring-IsValid, tt))) refl (omega arith, refl)
      refl refl (omega arith) (omega arith)

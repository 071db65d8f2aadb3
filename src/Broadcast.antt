-- ===== src/Broadcast.antt =====
-- HNet::_Send and HNet::_SendAll in Network/HNet.cpp: one packet for one session or for all that are connected. No other
-- thread sends meanwhile, and WSASend takes what it is given.
use network.Prelude.{ℕ, zero, suc, Bool, Option, none, some, List, [], ◌∷◌, if◌then◌else◌}
use network.Packet.Cipher.{WsaSend, encrypt}
use network.Send.{SendIo, send, post, done, blocked, endless}
use network.Sessions.{Table, find_session}
pub mod Rings
pub mod Delivered
mod Tests

-- The table, and the HNetIoSend of the session in each slot.
pub record Net : Type 0 where
  pub table : Table
  pub rings : List SendIo

-- HNetIoSend::Send with its call of `_Send`, which a send that is under way goes without; `none` means that it
-- does not return.
unfoldable pub send_ring : ℕ → List ℕ → SendIo → Option SendIo
send_ring fuel buf r = elim (send fuel buf r) [
  | done u ↦ some (if r.pending then u else (if u.due then post u else u))
  | blocked ↦ none
  | endless ↦ none
]

-- `session->Send(wsaSend)` for the session in a slot.
unfoldable pub send_slot : ℕ → List ℕ → ℕ → List SendIo → Option (List SendIo)
send_slot fuel buf i [] = some []
send_slot fuel buf zero (r ∷ rs) = elim (send_ring fuel buf r) [
  | none ↦ none
  | some r' ↦ some (r' ∷ rs)
]
send_slot fuel buf (suc i) (r ∷ rs) = elim (send_slot fuel buf i rs) [
  | none ↦ none
  | some rs' ↦ some (r ∷ rs')
]

-- The loop of `_SendAll` over `_connectedSessions`.
unfoldable pub send_loop : ℕ → List ℕ → List (Option ℕ) → List SendIo → Option (List SendIo)
send_loop fuel buf [] rings = some rings
send_loop fuel buf (none ∷ sessions) rings = send_loop fuel buf sessions rings
send_loop fuel buf (some i ∷ sessions) rings = elim (send_slot fuel buf i rings) [
  | none ↦ none
  | some rings' ↦ send_loop fuel buf sessions rings'
]

-- HNet::_SendAll
unfoldable pub send_all : ℕ → WsaSend → Net → Option (WsaSend × Net)
send_all fuel w s =
    let w' = encrypt w in
    elim (send_loop fuel w'.bytes s.table.connected s.rings) [
      | none ↦ none
      | some rings ↦ some (w', record s { rings = rings })
    ]

-- HNet::_Send with a net id.
unfoldable pub send_to : ℕ → ℕ → WsaSend → Net → Option (WsaSend × Net)
send_to fuel net_id w s = elim (find_session s.table net_id) [
  | none ↦ some (w, s)
  | some i ↦
      let w' = encrypt w in
      elim (send_slot fuel w'.bytes i s.rings) [
        | none ↦ none
        | some rings ↦ some (w', record s { rings = rings })
      ]
]

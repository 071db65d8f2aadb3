-- ===== src/Sessions.antt =====
-- The session table of Network/HNet.cpp, and the net ids of Network/HNetSession.cpp.
-- A session is its slot in `_sessions`, which is also the lower half of its net id. A net id is the
-- 32-bit pattern of the NetId: its sign plays no part, since ids are only compared and masked.
use network.Prelude.{
  ℕ, zero, suc, ◌≡◌, ◌≤◌, ◌<◌, ◌+◌, ◌*◌, ◌/◌, ◌%◌, min, Bool, true, false, Option, none, some, List,
  [], ◌∷◌, ◌++◌, leb, ◌==◌, if◌then◌else◌, length, get_or, set, replicate,
}
pub mod Slots
pub mod Lookup
pub mod Connected
mod Tests

pub record Table : Type 0 where
  -- `_netId` of each session in `_sessions`.
  pub sessions : List ℕ
  -- `_connectedSessions`: none is NULL. It is as long as both vectors' capacity.
  pub connected : List (Option ℕ)
  -- The static `id` of NewNetId.
  pub id : ℕ

-- _Create, as far as it is about sessions. `id` is the time at the first call of NewNetId.
unfoldable pub create : ℕ → ℕ → Table
create session_count id = record {
  sessions = [];
  connected = replicate (min 60000 session_count) none;
  id = id % 65536;
}

-- NewNetId: the new `id`, and the new net id in place of `net_id`.
unfoldable pub new_net_id : ℕ → ℕ → ℕ × ℕ
new_net_id id net_id = let next = (id + 1) % 65536 in (next, next * 65536 + net_id % 65536)

-- NewNetId of the session in slot `i`, when it has connected.
unfoldable pub renew : ℕ → Table → ℕ × Table
renew i t =
    let (next, n) = new_net_id t.id (get_or t.sessions i 0) in
    (n, record t { sessions = set t.sessions i n; id = next })

-- _CreateSession. `created` is whether HNetSession::Create could allocate its buffers; the
-- constructor has called NewNetId before that.
unfoldable pub create_session : Bool → Table → Option ℕ × Table
create_session created t =
    if leb (length t.connected) (length t.sessions)
    then (none, t)
    else (let i = length t.sessions in
        let (next, n) = new_net_id t.id (i % 65536) in
        if created
        then (some i, record t { sessions = t.sessions ++ n ∷ []; id = next })
        else (none, record t { id = next }))

-- _FindSession
unfoldable pub find_session : Table → ℕ → Option ℕ
find_session t net_id =
    let index = net_id % 65536 in
    if leb (length t.sessions) index
    then none
    else (if net_id == get_or t.sessions index 0 then some index else none)

-- _AddSession. The slot of a session is below the capacity, so the vector is not left.
unfoldable pub add_session : ℕ → Table → Bool × Table
add_session session t = elim (get_or t.connected session none) [
  | some other ↦ (false, t)
  | none ↦ (true, record t { connected = set t.connected session (some session) })
]

-- _DelSession
unfoldable pub del_session : ℕ → Table → Bool × Table
del_session session t = elim (get_or t.connected session none) [
  | none ↦ (false, t)
  | some other ↦ (true, record t { connected = set t.connected session none })
]

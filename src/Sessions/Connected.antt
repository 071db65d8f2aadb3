-- ===== src/Sessions/Connected.antt =====
-- _connectedSessions: a session is in it at most once, and every operation keeps the table valid.
use network.Prelude.{ℕ, ◌<◌, Bool, length}
use network.Sessions.{Table, create, renew, create_session, add_session, del_session}
use network.Sessions.Slots.{
  IsValid, create-IsValid, renew-IsValid, create_session-IsValid, add_session-IsValid,
  del_session-IsValid,
}

-- What the threads of a server do to the table, one call after the other.
pub data Reach (n id : ℕ) : Table → Type 0 where
  creates : Reach n id (create n id)
  sessions : {t : Table} (created : Bool) → Reach n id t → Reach n id (create_session created t).1
  renews : {t : Table} (i : ℕ) → i < length t.sessions → Reach n id t → Reach n id (renew i t).1
  adds : {t : Table} (i : ℕ) → Reach n id t → Reach n id (add_session i t).1
  dels : {t : Table} (i : ℕ) → Reach n id t → Reach n id (del_session i t).1

-- Whatever calls of _CreateSession, _AddSession, _DelSession and, for sessions that exist,
-- NewNetId follow on _Create, every session's slot is the lower half of its net id, an entry of
-- _connectedSessions is NULL or the session of its slot, there are no more sessions than entries,
-- and at most 60000 entries.
pub Reach-IsValid : {n id : ℕ} {t : Table} → Reach n id t → IsValid t
Reach-IsValid {n} {id} creates = create-IsValid n id
Reach-IsValid (sessions {t = t} c r) = create_session-IsValid c t (Reach-IsValid r)
Reach-IsValid (renews {t = t} i h r) = renew-IsValid i t h (Reach-IsValid r)
Reach-IsValid (adds {t = t} i r) = add_session-IsValid i t (Reach-IsValid r)
Reach-IsValid (dels {t = t} i r) = del_session-IsValid i t (Reach-IsValid r)

-- ===== src/Sessions/Tests.antt =====
-- The theorems on the session table at a server of two sessions.
use network.Prelude.{ℕ, ◌≡◌, ◌≢◌, ◌%◌, refl, true, some, none, [], ◌∷◌, arith}
use network.Sessions.{Table, create, renew, create_session, find_session, add_session, del_session}
use network.Sessions.Slots.{IsValid}
use network.Sessions.Lookup.{renew-find_session}
use network.Sessions.Connected.{creates, sessions, adds, dels, Reach-IsValid}

-- Two sessions made at time 7.
abbrev server : Table
server = record { sessions = 524288 ∷ 589825 ∷ []; connected = none ∷ none ∷ []; id = 9 }

server-IsValid : IsValid server
server-IsValid = record {
  slots = (refl, (refl, tt));
  connects = (tt, (tt, tt));
  room = omega arith;
  small = omega arith;
}

find-server : find_session server 524288 ≡ some 0
unfolding find_session
find-server = refl

renew-find_session_example :
    let (new, t') = renew 0 server in
    (find_session t' new ≡ some 0)
    × (find_session t' 524288 ≡ none)
    × ((other : ℕ) → other % 65536 ≢ 0 → find_session t' other ≡ find_session server other)
renew-find_session_example =
    renew-find_session server 0 524288 server-IsValid find-server (λ e. omega (arith, e))

Reach-IsValid_example :
    IsValid (del_session 0 (add_session 0 (create_session true (create 2 7)).1).1).1
Reach-IsValid_example = Reach-IsValid (dels 0 (adds 0 (sessions true creates)))

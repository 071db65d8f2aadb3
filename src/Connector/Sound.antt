-- ===== src/Connector/Sound.antt =====
-- What holds between the calls and completions of a connector.
use network.Prelude.{◌≡◌, ◌-◌, refl, ap, sym, subst, ◌∙◌, true, false, List, [], ◌∷◌, arith}
use network.Connector.{
  Answer, succeeds, fails, Opening, no_socket, half_open, opened, Report, on_reconnected, Connector,
  new_connector, reconnect_session, Step, call_connect, call_disconnect, received, reconnected,
  Reach, start, next,
}
use network.Connector.Releases.{Alternates, AfterDisconnect, bit, IsSound, completion-IsSound}
use network.Connector.Connecting.{
  on_connect-IsSound, disconnect_connector-IsSound, IsIdle, idle-IsSound, with_socket, idle-IsReady,
  connect_connector-IsSound,
}

behind_disconnect :
    (log : List Report)
    → AfterDisconnect log
    → Alternates false log
    → Alternates true (on_reconnected ∷ log)
behind_disconnect [] h k = absurd h
behind_disconnect (r ∷ l) h k = (refl, k)

posted-IsIdle :
    (c : Connector) → IsSound c → c.posted ≡ 1 → IsIdle (record c { posted = c.posted - 1 })
posted-IsIdle c s one =
    let down = (s.waits one).0 in
    let quiet : c.receiving ≡ false = sym s.active ∙ down in
    record {
      counted = s.counted ∙ ap bit quiet;
      registered = down;
      none_pending = quiet;
      none_posted = omega (arith, one);
      in_turns = subst (λ b. Alternates b c.log) down s.in_turns;
    }

reconnect_session-IsSound :
    (opening : Opening) (connect associate receive : Answer) (c : Connector)
    → IsSound c
    → c.posted ≡ 1
    → IsSound (reconnect_session opening connect associate receive c)
unfolding reconnect_session
reconnect_session-IsSound no_socket connect associate receive c s one =
    let i = posted-IsIdle c s one in idle-IsSound _ (with_socket _ false i)
reconnect_session-IsSound half_open connect associate receive c s one =
    let i = posted-IsIdle c s one in idle-IsSound _ (with_socket _ true i)
reconnect_session-IsSound opened fails associate receive c s one = record {
  counted = s.counted;
  active = s.active;
  has_socket = λ e. refl;
  one_posted = s.one_posted;
  waits = λ e. let (down, _, after) = s.waits e in (down, refl, after);
  in_turns = s.in_turns;
}
reconnect_session-IsSound opened succeeds associate receive c s one =
    let i = posted-IsIdle c s one in
    on_connect-IsSound on_reconnected associate receive
      (record c { posted = c.posted - 1; socket = true })
      (idle-IsReady on_reconnected (record c { posted = c.posted - 1 }) i
        (behind_disconnect c.log (s.waits one).2 i.in_turns))

new_connector-IsSound : IsSound new_connector
new_connector-IsSound = record {
  counted = refl;
  active = refl;
  has_socket = λ e. cc e;
  one_posted = omega arith;
  waits = λ e. absurd (omega (arith, e));
  in_turns = refl;
}

pub Step-IsSound : {c c' : Connector} → Step c c' → IsSound c → IsSound c'
Step-IsSound (call_connect a o k l r c) s = connect_connector-IsSound a o k l r c s
Step-IsSound (call_disconnect c) s = disconnect_connector-IsSound c s
Step-IsSound (received more receive c h) s = completion-IsSound more receive c s h
Step-IsSound (reconnected o k l r c h) s =
    reconnect_session-IsSound o k l r c s (omega (arith, s.one_posted, h))

-- Between any calls of Connect and Disconnect, completions of receives and attempts to reconnect,
-- each run to its end, of a connector that never calls Send: the count is 1 while a WSARecv is
-- pending and else 0, the session is registered exactly while one is, and then has a valid socket;
-- at most one attempt to reconnect is posted, and only for a session that is not registered, has a
-- socket and was told OnDisconnected last; OnConnected or OnReconnected and OnDisconnected come in
-- turns, OnReconnected behind OnDisconnected only, and the last tells whether it is registered.
pub Reach-IsSound : {c : Connector} → Reach c → IsSound c
Reach-IsSound start = new_connector-IsSound
Reach-IsSound (next r st) = Step-IsSound st (Reach-IsSound r)

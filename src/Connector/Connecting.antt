-- ===== src/Connector/Connecting.antt =====
-- Connect and Disconnect keep what holds between the calls and completions of a connector.
use network.Prelude.{
  ◌≡◌, ◌+◌, refl, ap, sym, subst, ◌∙◌, Bool, true, false, ◌∷◌, ◌==◌, arith, Bool-cases, inl, inr,
  ==→eq, ==→ne,
}
use network.Connector.{
  Answer, succeeds, fails, Opening, no_socket, half_open, opened, Report, on_connected, Connector,
  disconnected, reference, release, disconnect, connected, on_connect, connect_session,
  connect_connector, finish_connect, disconnect_connector,
}
use network.Connector.Releases.{
  Alternates, bit, IsSound, disconnect_held, release-Dropped, release-recv,
}

-- A session with a socket that is about to be connected.
pub record IsReady (report : Report) (c : Connector) : Type 0 where
  pub counted : c.count ≡ 0
  pub registered : c.registered ≡ false
  pub socket : c.socket ≡ true
  pub none_pending : c.receiving ≡ false
  pub none_posted : c.posted ≡ 0
  pub before : Alternates false c.log
  pub behind : Alternates true (report ∷ c.log)

pub on_connect-IsSound :
    (report : Report) (associate receive : Answer) (c : Connector)
    → IsReady report c
    → IsSound (on_connect report associate receive c)
unfolding on_connect connected
on_connect-IsSound report fails receive c r =
    subst (λ x. IsSound (release x)) (sym (disconnect_held (reference c) (omega arith)))
      (release-Dropped (record c { count = c.count + 1; reason = true })
        (record {
          counted = omega (arith, r.counted);
          registered = r.registered;
          none_pending = r.none_pending;
          none_posted = r.none_posted;
          in_turns = r.before;
        }))
on_connect-IsSound report succeeds receive c r = rw r.registered (
    release-recv receive
      (record c { count = c.count + 1; registered = true; reason = false; log = report ∷ c.log })
      (record {
        counted = omega (arith, r.counted);
        registered = refl;
        socket = r.socket;
        none_pending = r.none_pending;
        none_posted = r.none_posted;
        in_turns = r.behind;
      }))

pub idle_disconnect :
    (c : Connector) → c.count ≡ 0 → c.registered ≡ false → disconnect c ≡ record c { reason = true }
unfolding disconnect release disconnected
idle_disconnect c h k = ground arith

-- Setting the flag and the reason changes nothing that the invariant reads.
flags-IsSound :
    (c : Connector) (reconnect reason : Bool)
    → IsSound c
    → IsSound (record c { reconnect = reconnect; reason = reason })
flags-IsSound c reconnect reason s = record {
  counted = s.counted;
  active = s.active;
  has_socket = s.has_socket;
  one_posted = s.one_posted;
  waits = s.waits;
  in_turns = s.in_turns;
}

pub disconnect_connector-IsSound : (c : Connector) → IsSound c → IsSound (disconnect_connector c)
unfolding disconnect_connector
disconnect_connector-IsSound c s =
    let c' = record c { reconnect = false } in
    let kept = flags-IsSound c false true s in
    elim (Bool-cases c.receiving) [
      | inl y ↦ subst IsSound (sym (disconnect_held c' (omega (arith, s.counted ∙ ap bit y)))) kept
      | inr z ↦ subst IsSound (sym (idle_disconnect c' (s.counted ∙ ap bit z) (s.active ∙ z))) kept
    ]

-- A session at rest, that is not registered and for which nothing is posted.
pub record IsIdle (c : Connector) : Type 0 where
  pub counted : c.count ≡ 0
  pub registered : c.registered ≡ false
  pub none_pending : c.receiving ≡ false
  pub none_posted : c.posted ≡ 0
  pub in_turns : Alternates false c.log

pub idle-IsSound : (c : Connector) → IsIdle c → IsSound c
idle-IsSound c i = record {
  counted = i.counted ∙ ap bit (sym i.none_pending);
  active = i.registered ∙ sym i.none_pending;
  has_socket = λ e. cc (e, i.registered);
  one_posted = omega (arith, i.none_posted);
  waits = λ e. absurd (omega (arith, i.none_posted, e));
  in_turns = rw i.registered i.in_turns;
}

pub with_socket : (c : Connector) (socket : Bool) → IsIdle c → IsIdle (record c { socket = socket })
with_socket c socket i = record {
  counted = i.counted;
  registered = i.registered;
  none_pending = i.none_pending;
  none_posted = i.none_posted;
  in_turns = i.in_turns;
}

pub idle-IsReady :
    (report : Report) (c : Connector)
    → IsIdle c
    → Alternates true (report ∷ c.log)
    → IsReady report (record c { socket = true })
idle-IsReady report c i b = record {
  counted = i.counted;
  registered = i.registered;
  socket = refl;
  none_pending = i.none_pending;
  none_posted = i.none_posted;
  before = i.in_turns;
  behind = b;
}

-- Without a socket nothing is under way.
no_socket-IsIdle : (c : Connector) → IsSound c → c.socket ≡ false → IsIdle c
no_socket-IsIdle c s h =
    let down : c.registered ≡ false = elim (Bool-cases c.registered) [
      | inl y ↦ cc (s.has_socket y, h)
      | inr z ↦ z
    ] in
    record {
      counted = s.counted ∙ ap bit (sym s.active ∙ down);
      registered = down;
      none_pending = sym s.active ∙ down;
      none_posted = elim (Bool-cases (c.posted == 1)) [
        | inl y ↦ cc ((s.waits (==→eq c.posted 1 y)).1, h)
        | inr z ↦ omega (arith, s.one_posted, ==→ne c.posted 1 z)
      ];
      in_turns = subst (λ b. Alternates b c.log) down s.in_turns;
    }

pub connect_valid :
    (address : Answer) (opening : Opening) (connect associate receive : Answer) (c : Connector)
    → c.socket ≡ true
    → connect_connector address opening connect associate receive c ≡ (true, c)
unfolding connect_connector
connect_valid address opening connect associate receive c h = ground arith

connect_invalid :
    (address : Answer) (opening : Opening) (connect associate receive : Answer) (c : Connector)
    → c.socket ≡ false
    → connect_connector address opening connect associate receive c
      ≡ finish_connect (connect_session address opening connect associate receive c)
unfolding connect_connector
connect_invalid address opening connect associate receive c h = simp h

connect_session-IsSound :
    (address : Answer) (opening : Opening) (connect associate receive : Answer) (c : Connector)
    → IsIdle c
    → IsSound (finish_connect (connect_session address opening connect associate receive c)).1
unfolding connect_session
connect_session-IsSound fails opening connect associate receive c i = idle-IsSound c i
connect_session-IsSound succeeds no_socket connect associate receive c i =
    idle-IsSound (record c { socket = false }) (with_socket c false i)
connect_session-IsSound succeeds half_open connect associate receive c i =
    idle-IsSound (record c { socket = true }) (with_socket c true i)
connect_session-IsSound succeeds opened fails associate receive c i =
    idle-IsSound (record c { socket = false }) (with_socket c false i)
connect_session-IsSound succeeds opened succeeds associate receive c i =
    let c' = on_connect on_connected associate receive (record c { socket = true }) in
    flags-IsSound c' true c'.reason (
      on_connect-IsSound on_connected associate receive (record c { socket = true })
        (idle-IsReady on_connected c i (refl, i.in_turns)))

pub connect_connector-IsSound :
    (address : Answer) (opening : Opening) (connect associate receive : Answer) (c : Connector)
    → IsSound c
    → IsSound (connect_connector address opening connect associate receive c).1
connect_connector-IsSound address opening connect associate receive c s =
    elim (Bool-cases c.socket) [
      | inl y ↦
          subst (λ r. IsSound r.1)
            (sym (connect_valid address opening connect associate receive c y)) s
      | inr z ↦
          subst (λ r. IsSound r.1)
            (sym (connect_invalid address opening connect associate receive c z))
            (connect_session-IsSound address opening connect associate receive c
              (no_socket-IsIdle c s z))
    ]

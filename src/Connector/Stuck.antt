-- ===== src/Connector/Stuck.antt =====
-- What becomes of a connection that is lost: attempts until one comes through, or none any more.
use network.Prelude.{ℕ, zero, suc, ◌≡◌, ◌-◌, refl, ap, sym, subst, ◌∙◌, true, false, List, arith}
use network.Connector.{
  Answer, succeeds, fails, opened, Report, Connector, disconnected, reference, release, connected,
  on_connect, disconnect_connector, reconnect_session, Step, call_connect, call_disconnect,
  received, reconnected, Reach,
}
use network.Connector.Releases.{bit, disconnect_held}
use network.Connector.Connecting.{idle_disconnect, connect_valid}
use network.Connector.Sound.{Reach-IsSound}

-- Attempts whose connect fails, one after the other.
unfoldable pub attempts : ℕ → Connector → Connector
attempts zero c = c
attempts (suc n) c = attempts n (reconnect_session opened fails succeeds succeeds c)

pub data Steps (c : Connector) : Connector → Type 0 where
  here : Steps c c
  further : {d e : Connector} → Steps c d → Step d e → Steps c e

-- A valid socket, and nothing that goes on with it.
record IsStuck (log : List Report) (c : Connector) : Type 0 where
  socket : c.socket ≡ true
  registered : c.registered ≡ false
  none_pending : c.receiving ≡ false
  none_posted : c.posted ≡ 0
  counted : c.count ≡ 0
  same : c.log ≡ log

Step-IsStuck : {c d : Connector} {log : List Report} → Step c d → IsStuck log c → IsStuck log d
unfolding disconnect_connector
Step-IsStuck {log} (call_connect a o k l r c) s =
    subst (λ x. IsStuck log x.1) (sym (connect_valid a o k l r c s.socket)) s
Step-IsStuck {log} (call_disconnect c) s =
    subst (IsStuck log)
      (sym (idle_disconnect (record c { reconnect = false }) s.counted s.registered))
      (record {
        socket = s.socket;
        registered = s.registered;
        none_pending = s.none_pending;
        none_posted = s.none_posted;
        counted = s.counted;
        same = s.same;
      })
Step-IsStuck (received more receive c h) s = cc (s.none_pending, h)
Step-IsStuck (reconnected o k l r c h) s = absurd (omega (arith, s.none_posted, h))

Steps-IsStuck : {c d : Connector} {log : List Report} → Steps c d → IsStuck log c → IsStuck log d
Steps-IsStuck here s = s
Steps-IsStuck (further st x) s = Step-IsStuck x (Steps-IsStuck st s)

reconnect_refused :
    (receive : Answer) (c : Connector)
    → c.count ≡ 0
    → c.registered ≡ false
    → reconnect_session opened succeeds fails receive c
      ≡ record c { posted = c.posted - 1; socket = true; reason = true }
unfolding reconnect_session on_connect connected release disconnected
reconnect_refused receive c h k =
    let d = record c { posted = c.posted - 1; socket = true } in
    ap release (disconnect_held (reference d) (omega arith)) ∙ ground arith

-- For a connector that never calls Send, with each call and completion run to its end: if a posted
-- attempt opens its socket and connects, but Initialize or the registration with IOCP fails, then
-- whatever calls of Connect and Disconnect and whatever completions follow, the application is
-- told nothing more, no attempt is posted, and the session is not registered although its socket
-- is valid.
pub Reach-abandoned :
    (receive : Answer) {c d : Connector}
    → Reach c
    → c.posted ≡ 1
    → Steps (reconnect_session opened succeeds fails receive c) d
    → (d.log ≡ c.log) × (d.registered ≡ false) × (d.posted ≡ 0) × (d.socket ≡ true)
Reach-abandoned receive {c} r one st =
    let s = Reach-IsSound r in
    let down = (s.waits one).0 in
    let quiet : c.receiving ≡ false = sym s.active ∙ down in
    let none : c.count ≡ 0 = s.counted ∙ ap bit quiet in
    let e = reconnect_refused receive c none down in
    let stuck : IsStuck c.log (record c { posted = c.posted - 1; socket = true; reason = true }) =
      record {
        socket = refl;
        registered = down;
        none_pending = quiet;
        none_posted = omega (arith, one);
        counted = none;
        same = refl;
      } in
    let end = Steps-IsStuck st (subst (IsStuck c.log) (sym e) stuck) in
    (end.same, end.registered, end.none_posted, end.socket)

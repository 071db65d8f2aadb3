-- ===== src/Connector/Tests.antt =====
-- A connector that connects, loses the connection, and tries again.
use network.Prelude.{◌≡◌, refl, true, false}
use network.Connector.{
  succeeds, fails, opened, Connector, new_connector, connect_connector, connect_session, on_connect,
  connected, recv, release, disconnect, disconnected, completion, reconnect_session, Reach, start,
  next, call_connect, received,
}
use network.Connector.Releases.{IsSound}
use network.Connector.Sound.{Reach-IsSound}
use network.Connector.Stuck.{here, further, Reach-abandoned}

abbrev up : Connector
up = (connect_connector succeeds opened succeeds succeeds succeeds new_connector).1

up_reached : Reach up
up_reached = next start (call_connect succeeds opened succeeds succeeds succeeds new_connector)

up_receiving : up.receiving ≡ true
unfolding connect_connector connect_session on_connect connected recv release
up_receiving = refl

abbrev down : Connector
down = completion fails fails up

down_reached : Reach down
down_reached = next up_reached (received fails fails up up_receiving)

down_posted : down.posted ≡ 1
unfolding connect_connector connect_session on_connect connected recv release completion disconnect
    disconnected
down_posted = refl

Reach-IsSound_example : IsSound down
Reach-IsSound_example = Reach-IsSound down_reached

abbrev refused : Connector
refused = reconnect_session opened succeeds fails succeeds down

Reach-abandoned_example :
    let d = (connect_connector succeeds opened succeeds succeeds succeeds refused).1 in
    (d.log ≡ down.log) × (d.registered ≡ false) × (d.posted ≡ 0) × (d.socket ≡ true)
Reach-abandoned_example =
    Reach-abandoned succeeds down_reached down_posted
      (further here (call_connect succeeds opened succeeds succeeds succeeds refused))

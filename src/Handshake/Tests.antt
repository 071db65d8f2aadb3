-- ===== src/Handshake/Tests.antt =====
-- A request with a protocol, as RFC 6455 has it.
use network.Prelude.{ℕ, Option, some, List, [], ◌∷◌, replicate}
use network.Handshake.{codes}

abbrev memory : List ℕ
memory = replicate 64 7

abbrev key : List ℕ
key = codes "dGhlIHNhbXBsZSBub25jZQ=="

abbrev before : List (List ℕ)
before = codes "GET /chat" ∷ codes "Host: h" ∷ []

abbrev mid : List (List ℕ)
mid = codes "Origin: x" ∷ []

abbrev after : List (List ℕ)
after = codes "Sec-WebSocket-Version: 13" ∷ []

abbrev protocol : Option (List ℕ)
protocol = some (codes "chat")

-- ===== src/Handshake/Response.antt =====
-- The answer to a request whose lines hold a key, and perhaps a protocol.
use network.Prelude.{ℕ, ◌≡◌, Option, none, some, List, ◌++◌, length}
use network.Sha.Reference.{reference_hash}
use network.Sha.Base64.{decode, digest}
use network.StrParser.{StrParser}
use network.Handshake.{
  guid, end_line, status_line, upgrade_line, connection_line, accept_name, protocol_start,
}

abbrev pub length_of : Option (List ℕ) → ℕ
length_of none = 0
length_of (some p) = length p

abbrev pub with_protocol : Option (List ℕ) → List ℕ → List ℕ
with_protocol none r = r
with_protocol (some p) r = r ++ protocol_start ++ p ++ end_line

abbrev pub greeting : List ℕ
greeting = status_line ++ upgrade_line ++ connection_line

pub record Answered (key : List ℕ) (protocol : Option (List ℕ)) (r : Option (Option (List ℕ)))
    : Type 0 where
  pub accept : List ℕ
  pub response :
      r
      ≡ some (
          some (with_protocol protocol (greeting ++ accept_name ++ accept ++ end_line) ++ end_line))
  pub accepts : decode accept ≡ digest (reference_hash (key ++ guid))

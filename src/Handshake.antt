-- ===== src/Handshake.antt =====
-- `_Handshake` of HNetIoWsAccept in Network/HNetIo.cpp: the answer to a client's request. Texts are lists of bytes
-- without the terminator. `none` is a fault: a read or write outside a buffer, or the end of the program in sprintf_s.
use network.Prelude.{
  ℕ, suc, ◌+◌, Bool, true, false, Option, none, some, List, [], ◌∷◌, ◌++◌, ltb, ◌==◌, if◌then◌else◌,
  length, take,
}
use Prim.Native.Char.{code}
use Prim.Native.String.{String}
use network.Sha.{new_sha1, to_base64}
use network.StrParser.{StrParser, new_str_parser, parsing, key_value}
pub mod Request
pub mod Response
mod Tests

infixl 5 ◌>>=◌
abbrev pub ◌>>=◌ {ℓ κ} : {A : Type ℓ} {B : Type κ} → Option A → (A → Option B) → Option B
none >>= f = none
some a >>= f = f a

abbrev pub codes : String → List ℕ
codes String.[] = []
codes (String.◌∷◌ c s) = code c ∷ codes s

abbrev pub buff_size : ℕ
buff_size = 1024

-- The text at the start of an array.
unfoldable pub c_string : List ℕ → Option (List ℕ)
c_string [] = none
c_string (c ∷ cs) =
    let rest = c_string cs >>= (λ s. some (c ∷ s)) in if c == 0 then some [] else rest

-- strncat to `response`, which has BUFF_SIZE bytes.
unfoldable pub strncat : List ℕ → List ℕ → Option (List ℕ)
strncat response text =
    let all = response ++ take buff_size text in
    if ltb (length all) buff_size then some all else none

abbrev pub guid : List ℕ
guid = codes "258EAFA5-E914-47DA-95CA-C5AB0DC85B11"

-- The sprintf_s into `totalKey`.
unfoldable pub total_key : List ℕ → Option (List ℕ)
total_key key = if ltb (length (key ++ guid)) buff_size then some (key ++ guid) else none

abbrev pub end_line : List ℕ
end_line = codes "\r\n"

abbrev pub value_delimiter : List ℕ
value_delimiter = codes " "

abbrev pub status_line : List ℕ
status_line = codes "HTTP/1.1 101 Switching Protocols\r\n"

abbrev pub upgrade_line : List ℕ
upgrade_line = codes "Upgrade: WebSocket\r\n"

abbrev pub connection_line : List ℕ
connection_line = codes "Connection: Upgrade\r\n"

abbrev pub key_name : List ℕ
key_name = codes "Sec-WebSocket-Key:"

abbrev pub accept_name : List ℕ
accept_name = codes "Sec-WebSocket-Accept: "

abbrev pub protocol_name : List ℕ
protocol_name = codes "Sec-WebSocket-Protocol:"

abbrev pub protocol_start : List ℕ
protocol_start = codes "Sec-WebSocket-Protocol: "

unfoldable pub add_protocol : Option (List ℕ) → List ℕ → Option (List ℕ)
add_protocol none response = some response
add_protocol (some protocol) response = do
  r1 ← strncat response protocol_start
  r2 ← strncat r1 protocol
  strncat r2 end_line

-- From the key on; `memory` is what the block of the SHA1 object holds.
unfoldable pub answer_key : List ℕ → List ℕ → List ℕ → StrParser → Option (List ℕ)
answer_key memory response key parser = do
  total ← total_key key
  r1 ← strncat response accept_name
  r2 ← strncat r1 (to_base64 total (new_sha1 memory)).0
  r3 ← strncat r2 end_line
  r4 ← add_protocol (key_value (some protocol_name) value_delimiter parser).0 r3
  strncat r4 end_line

-- `_Handshake`: the response that is sent, or `some none` where it returns false. `buf` is `_buf`.
unfoldable pub handshake : List ℕ → List ℕ → Option (Option (List ℕ))
handshake memory buf = do
  r1 ← strncat [] status_line
  r2 ← strncat r1 upgrade_line
  response ← strncat r2 connection_line
  string ← c_string buf
  (count, parser) ← parsing string end_line new_str_parser
  let (key, parser') = key_value (some key_name) value_delimiter parser
  elim key [
    | none ↦ some none
    | some k ↦ do whole ← answer_key memory response k parser'; some (some whole)
  ]

-- ===== src/Handshake/Request.antt =====
-- The lines of a request, and what StrParser finds in them.
use network.Prelude.{
  ℕ, ◌≡◌, ◌∙◌, refl, ap, true, false, Option, none, some, List, [], ◌∷◌, ◌++◌, ◌==◌, arith,
}
use network.StrParser.{contains, strstr, starts_with, find_value}
use network.StrParser.Tokens.{crlf, LacksAll, IsLine, AllLines, joined}
use network.StrParser.Keys.{AllLack, find_value-lacks, find_value-none, find_value-line}
use network.Handshake.{codes, c_string, value_delimiter, key_name, protocol_name}

-- What a line cannot have in it: the ends of lines and of texts.
abbrev pub terminators : List ℕ
terminators = b'\r' ∷ b'\n' ∷ 0 ∷ []

abbrev pub key_line : List ℕ → List ℕ
key_line key = key_name ++ b' ' ∷ key

abbrev pub protocol_lines : Option (List ℕ) → List (List ℕ)
protocol_lines none = []
protocol_lines (some p) = (protocol_name ++ b' ' ∷ p) ∷ []

abbrev pub request_lines :
    List ℕ → Option (List ℕ) → List (List ℕ) → List (List ℕ) → List (List ℕ) → List (List ℕ)
request_lines key protocol before mid after =
    before ++ (key_line key ∷ (mid ++ (protocol_lines protocol ++ after)))

-- The lines that must not have the name of the protocol in them: all that come before its line.
abbrev pub before_protocol : Option (List ℕ) → List (List ℕ) → List (List ℕ)
before_protocol none after = after
before_protocol (some p) after = []

pub c_string-text : (s behind : List ℕ) → LacksAll (0 ∷ []) s → c_string (s ++ 0 ∷ behind) ≡ some s
unfolding c_string contains
c_string-text [] behind h = refl
c_string-text (c ∷ cs) behind (a, h) =
    let z : (c == 0) ≡ false = ground arith in rw z (rw (c_string-text cs behind h) refl)

lacks_zero : (s : List ℕ) → LacksAll terminators s → LacksAll (0 ∷ []) s
unfolding contains
lacks_zero [] h = tt
lacks_zero (c ∷ cs) (a, h) = (ground arith, lacks_zero cs h)

pub LacksAll-append : (ds s t : List ℕ) → LacksAll ds s → LacksAll ds t → LacksAll ds (s ++ t)
LacksAll-append ds [] t h k = k
LacksAll-append ds (c ∷ cs) t (a, h) k = (a, LacksAll-append ds cs t h k)

pub crlf_text : LacksAll (0 ∷ []) crlf
unfolding contains
crlf_text = (refl, (refl, tt))

line_text : (l : List ℕ) → IsLine terminators l → LacksAll (0 ∷ []) l
line_text [] h = elim h [ ]
line_text (c ∷ cs) h = lacks_zero (c ∷ cs) h

pub joined-text : (ls : List (List ℕ)) → AllLines terminators ls → LacksAll (0 ∷ []) (joined ls)
unfolding joined
joined-text [] h = tt
joined-text (l ∷ ls) (i, h) =
    LacksAll-append (0 ∷ []) l (crlf ++ joined ls) (line_text l i)
      (LacksAll-append (0 ∷ []) crlf (joined ls) crlf_text (joined-text ls h))

lacks_crlf : (s : List ℕ) → LacksAll terminators s → LacksAll crlf s
unfolding contains
lacks_crlf [] h = tt
lacks_crlf (c ∷ cs) (a, h) = (ground arith, lacks_crlf cs h)

pub lines_crlf : (ls : List (List ℕ)) → AllLines terminators ls → AllLines crlf ls
lines_crlf [] h = tt
lines_crlf ([] ∷ ls) (i, h) = elim i [ ]
lines_crlf ((c ∷ cs) ∷ ls) (i, h) = (lacks_crlf (c ∷ cs) i, lines_crlf ls h)

pub key_name-Lacks : LacksAll value_delimiter key_name
unfolding contains
key_name-Lacks = ground arith

space_is : contains b' ' value_delimiter ≡ true
unfolding contains
space_is = refl

pub find_key :
    (key : List ℕ) (before after : List (List ℕ))
    → AllLack key_name before
    → find_value key_name value_delimiter (before ++ (key_line key ∷ after))
      ≡ (some key, before ++ (key_name ∷ after))
find_key key before after h =
    let e =
      find_value-line b'S' (codes "ec-WebSocket-Key:") value_delimiter key b' ' after key_name-Lacks
        space_is in
    find_value-lacks key_name value_delimiter before (key_line key ∷ after) h
    ∙ (λ i. ((e i).0, before ++ (e i).1))

protocol_name-Lacks : LacksAll value_delimiter protocol_name
unfolding contains
protocol_name-Lacks = ground arith

pub key_lacks_protocol : strstr protocol_name key_name ≡ none
unfolding strstr starts_with
key_lacks_protocol = refl

pub AllLack-append :
    (key : List ℕ) (ts us : List (List ℕ))
    → AllLack key ts
    → AllLack key us
    → AllLack key (ts ++ us)
AllLack-append key [] us h k = k
AllLack-append key (t ∷ ts) us (a, h) k = (a, AllLack-append key ts us h k)

pub find_protocol :
    (protocol : Option (List ℕ)) (front after : List (List ℕ))
    → AllLack protocol_name front
    → AllLack protocol_name (before_protocol protocol after)
    → (find_value protocol_name value_delimiter (front ++ (protocol_lines protocol ++ after))).0
      ≡ protocol
find_protocol none front after h k =
    ap (λ r. r.0)
      (find_value-none protocol_name value_delimiter (front ++ after)
        (AllLack-append protocol_name front after h k))
find_protocol (some p) front after h k =
    ap (λ r. r.0)
      (find_value-lacks protocol_name value_delimiter front ((protocol_name ++ b' ' ∷ p) ∷ after) h)
    ∙ ap (λ r. r.0)
        (find_value-line b'S' (codes "ec-WebSocket-Protocol:") value_delimiter p b' ' after
          protocol_name-Lacks space_is)

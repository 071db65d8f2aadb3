-- ===== src/Life/Effects.antt =====
-- What one part of a function can do: the references it takes and gives back, how far the session is on
-- its way from one connection to the next, and what is still going to receive.
use network.Prelude.{
  ℕ, ◌≡◌, ◌≤◌, ◌<◌, ◌+◌, ◌-◌, ◌%◌, refl, ap, Bool, true, false, Option, none, some, List, [], ◌∷◌,
  length, arith, if◌then◌else◌, Bool-cases, Option-cases, inl, inr, ◌==◌, sub32,
}
use network.Life.{
  Act, open_socket, accept_reference, accept_ex, accepted, on_connect, initialize, associate,
  add_session, on_connected, recv, recv_reference, wsa_recv, recved, sended, send_reference,
  wsa_send, disconnect, on_disconnect, disconnect_reference, cancel, release, on_release,
  del_session, on_disconnected, close, Answer, succeeds, fails, half, Io, accept_io, recv_io,
  Notice, connected_event, disconnected_event, Reason, Session, run_act, holds, weigh,
}
use network.Life.Weight.{sum}

abbrev pub bit : Bool → ℕ
bit true = 1
bit false = 0

-- Disconnect has been called since Initialize.
abbrev pub is_set : Option Reason → ℕ
is_set none = 0
is_set (some r) = 1

-- The way from Close to _AddSession, on which the session is not registered.
abbrev pub stage : Act → ℕ
stage close = 1
stage open_socket = 1
stage accept_reference = 1
stage accept_ex = 1
stage accepted = 1
stage on_connect = 1
stage initialize = 1
stage associate = 1
stage add_session = 1
stage _ = 0

abbrev pub accepts : Io → ℕ
accepts accept_io = 1
accepts _ = 0

-- What ends in a receive that the system has been asked for, or in a reason.
abbrev pub is_token : Act → Bool
is_token on_connected = true
is_token recv = true
is_token recv_reference = true
is_token wsa_recv = true
is_token recved = true
is_token (disconnect r) = true
is_token _ = false

abbrev pub token : Act → ℕ
token a = bit (is_token a)

abbrev pub receives : Io → ℕ
receives recv_io = 1
receives _ = 0

abbrev pub is_on_connected : Act → Bool
is_on_connected on_connected = true
is_on_connected _ = false

abbrev pub is_on_disconnected : Act → Bool
is_on_disconnected on_disconnected = true
is_on_disconnected _ = false

abbrev pub reports_connected : Act → ℕ
reports_connected a = bit (is_on_connected a)

abbrev pub reports_disconnected : Act → ℕ
reports_disconnected a = bit (is_on_disconnected a)

-- From the last Release to the Reference of the next Accept.
abbrev pub is_final : Act → Bool
is_final on_release = true
is_final del_session = true
is_final on_disconnected = true
is_final close = true
is_final open_socket = true
is_final accept_reference = true
is_final _ = false

abbrev pub final : Act → ℕ
final a = bit (is_final a)

-- 1 for parts of which the last one has no reference.
abbrev pub unclosed : List Act → ℕ
unclosed [] = 0
unclosed (a ∷ []) = 1 - holds a
unclosed (a ∷ b ∷ k) = unclosed (b ∷ k)

abbrev pub unclosed_behind : List Act → ℕ
unclosed_behind [] = 0
unclosed_behind (a ∷ k) = unclosed k

-- 1 for a thread that runs its last part, and has no reference.
abbrev pub lone : List Act → ℕ
lone [] = 0
lone (a ∷ []) = 1 - holds a
lone (a ∷ b ∷ k) = 0

-- The calls of OnConnected and OnDisconnected.
abbrev pub logged : Act → Session → List Notice
logged a s =
    if is_on_connected a
    then connected_event ∷ s.log
    else (if is_on_disconnected a then disconnected_event s.reason ∷ s.log else s.log)

abbrev CountLaw : Act → Session → List Act × Session → Type 0
CountLaw a s (next, t) =
    ((s.count + (weigh holds next + length t.pending)) % 4294967296
      ≡ (t.count + (holds a + length s.pending)) % 4294967296)
    × (t.count < 4294967296)

abbrev LoneLaw : Act → Session → List Act × Session → Type 0
LoneLaw a s (next, t) =
    (unclosed_behind next ≡ 0)
    × (lone next ≤ bit (t.count == 0) + (1 - holds a))
    × (length t.pending ≤ length s.pending + holds a)

abbrev FinalLaw : Act → Session → List Act × Session → Type 0
FinalLaw a s (next, t) =
    (weigh final next ≤ final a + bit (t.count == 0)) × (weigh final next + weigh holds next ≤ 1)

abbrev StageLaw : Act → Session → List Act × Session → Type 0
StageLaw a s (next, t) =
    ((weigh stage next + weigh reports_disconnected next) + sum accepts t.pending)
      + bit t.registered
    ≤ ((stage a + reports_disconnected a) + sum accepts s.pending) + bit s.registered

-- Only a reason ends receiving, and only Initialize takes a reason away.
abbrev TokenLaw : Act → Session → List Act × Session → Type 0
TokenLaw a s (next, t) =
    (token a + sum receives s.pending
      ≤ (weigh token next + sum receives t.pending) + is_set t.reason)
    × (is_set s.reason ≤ is_set t.reason + stage a)
    × (weigh reports_connected next ≤ weigh token next)
    × (weigh reports_disconnected next + token a ≤ 1)

abbrev ReportLaw : Act → Session → List Act × Session → Type 0
ReportLaw a s (next, t) =
    (weigh reports_connected next + bit s.registered
      ≡ bit t.registered + weigh reports_disconnected next)
    × (weigh reports_connected next + weigh reports_disconnected next ≤ 1)
    × (weigh reports_disconnected next ≤ final a)
    × (reports_disconnected a ≤ final a)
    × (reports_connected a + reports_disconnected a ≤ 1)

pub record Effects (a : Act) (s : Session) (r : List Act × Session) : Type 0 where
  pub laws :
      CountLaw a s r
      × LoneLaw a s r
      × FinalLaw a s r
      × StageLaw a s r
      × TokenLaw a s r
      × ReportLaw a s r
  pub log : r.1.log ≡ logged a s

module _ (s : Session) (small : s.count < 4294967296) where
  pub run_act-Effects : (a : Act) (answer : Answer) → Effects a s (run_act a answer s)
  unfolding run_act
  run_act-Effects open_socket succeeds = record { laws = omega arith; log = refl }
  run_act-Effects open_socket fails = record { laws = omega arith; log = refl }
  run_act-Effects open_socket half = record { laws = omega arith; log = refl }
  run_act-Effects accept_reference answer = record { laws = omega arith; log = refl }
  run_act-Effects accept_ex succeeds = record { laws = omega arith; log = refl }
  run_act-Effects accept_ex fails = record { laws = omega arith; log = refl }
  run_act-Effects accept_ex half = record { laws = omega arith; log = refl }
  run_act-Effects accepted succeeds = record { laws = omega arith; log = refl }
  run_act-Effects accepted fails = record { laws = omega arith; log = refl }
  run_act-Effects accepted half = record { laws = omega arith; log = refl }
  run_act-Effects on_connect answer = record { laws = omega arith; log = refl }
  run_act-Effects initialize succeeds = elim (Option-cases s.reason) [
    | inl n ↦ rw n (record { laws = omega arith; log = refl })
    | inr (q, y) ↦ rw y (record { laws = omega arith; log = refl })
  ]
  run_act-Effects initialize fails = record { laws = omega arith; log = refl }
  run_act-Effects initialize half = record { laws = omega arith; log = refl }
  run_act-Effects associate succeeds = record { laws = omega arith; log = refl }
  run_act-Effects associate fails = record { laws = omega arith; log = refl }
  run_act-Effects associate half = record { laws = omega arith; log = refl }
  run_act-Effects add_session answer = elim (Bool-cases s.registered) [
    | inl y ↦ rw y (record { laws = omega arith; log = refl })
    | inr n ↦ rw n (record { laws = omega arith; log = refl })
  ]
  run_act-Effects on_connected answer = record { laws = omega arith; log = refl }
  run_act-Effects recv answer = elim (Option-cases s.reason) [
    | inl n ↦ rw n (record { laws = omega arith; log = refl })
    | inr (q, y) ↦ rw y (record { laws = omega arith; log = refl })
  ]
  run_act-Effects recv_reference answer = record { laws = omega arith; log = refl }
  run_act-Effects wsa_recv succeeds = record { laws = omega arith; log = refl }
  run_act-Effects wsa_recv fails = record { laws = omega arith; log = refl }
  run_act-Effects wsa_recv half = record { laws = omega arith; log = refl }
  run_act-Effects recved succeeds = record { laws = omega arith; log = refl }
  run_act-Effects recved fails = record { laws = omega arith; log = refl }
  run_act-Effects recved half = record { laws = omega arith; log = refl }
  run_act-Effects sended succeeds = record { laws = omega arith; log = refl }
  run_act-Effects sended fails = record { laws = omega arith; log = refl }
  run_act-Effects sended half = record { laws = omega arith; log = refl }
  run_act-Effects send_reference answer = record { laws = omega arith; log = refl }
  run_act-Effects wsa_send succeeds = record { laws = omega arith; log = refl }
  run_act-Effects wsa_send fails = record { laws = omega arith; log = refl }
  run_act-Effects wsa_send half = record { laws = omega arith; log = refl }
  run_act-Effects (disconnect r) answer = elim (Option-cases s.reason) [
    | inl n ↦ rw n (record { laws = omega arith; log = refl })
    | inr (q, y) ↦ rw y (record { laws = omega arith; log = refl })
  ]
  run_act-Effects on_disconnect answer = elim (Bool-cases s.socket) [
    | inl y ↦ rw y (record { laws = omega arith; log = refl })
    | inr n ↦ rw n (record { laws = omega arith; log = refl })
  ]
  run_act-Effects disconnect_reference answer = record { laws = omega arith; log = refl }
  run_act-Effects cancel answer = record { laws = omega arith; log = refl }
  run_act-Effects release answer = elim (Bool-cases (sub32 s.count 1 == 0)) [
    | inl y ↦ rw y (record { laws = omega (arith, ap bit y); log = refl })
    | inr n ↦ rw n (record { laws = omega (arith, ap bit n); log = refl })
  ]
  run_act-Effects on_release answer = record { laws = omega arith; log = refl }
  run_act-Effects del_session answer = elim (Bool-cases s.registered) [
    | inl y ↦ rw y (record { laws = omega arith; log = refl })
    | inr n ↦ rw n (record { laws = omega arith; log = refl })
  ]
  run_act-Effects on_disconnected answer = elim (Option-cases s.reason) [
    | inl n ↦ rw n (record { laws = omega arith; log = refl })
    | inr (q, y) ↦ rw y (record { laws = omega arith; log = refl })
  ]
  run_act-Effects close answer = record { laws = omega arith; log = refl }

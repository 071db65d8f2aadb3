-- ===== src/Recv/Single/Tests.antt =====
-- The theorem on a single-threaded server at a connection that brings two packets.
use network.Prelude.{ℕ, ◌≡◌, false, refl, inl, List, [], ◌∷◌, arith, replicate, length-replicate}
use network.Recv.{IsValid, overlaps}
use network.Recv.Round.{answer}
use network.Recv.Single.{Server, receive_job, Serve, begin_serving, serve_round}
use network.Recv.Single.Round.{Round, receive_job-Round}
use network.Recv.Single.Served.{Handed, Serve-Handed}

abbrev new_server : Server
new_server = record {
  io = record { buf = replicate 32500 0; size = 32500; begin_pos = 0; end_pos = 0; messages = [] };
  queue = [];
  handed = [];
}

new_server-IsValid : IsValid new_server.io
new_server-IsValid = omega (arith, length-replicate {A = ℕ} 32500 0)

-- A packet of five bytes and one of six.
abbrev two_packets : List ℕ
two_packets = 5 ∷ 0 ∷ 1 ∷ 0 ∷ 42 ∷ 6 ∷ 0 ∷ 2 ∷ 0 ∷ 1 ∷ 2 ∷ []

new_server-apart : overlaps new_server.io ≡ false
unfolding overlaps
new_server-apart = refl

abbrev first_round :
    Round new_server two_packets (receive_job 32500 two_packets (replicate 32500 7) new_server)
first_round =
    receive_job-Round 32500 two_packets (replicate 32500 7) new_server new_server-IsValid
      (inl (omega arith)) new_server-apart (omega arith) (omega arith)
      (length-replicate {A = ℕ} 32500 7)

abbrev served : Serve new_server two_packets (answer first_round.good) first_round.after
served =
    serve_round 32500 two_packets (replicate 32500 7) begin_serving new_server-apart (omega arith)
      (omega arith) (length-replicate {A = ℕ} 32500 7) refl first_round.result

Serve-Handed_example : Handed new_server two_packets (answer first_round.good) first_round.after
Serve-Handed_example = Serve-Handed new_server-IsValid (inl (omega arith)) refl served

-- ===== src/Recv/Tests.antt =====
-- The theorems on HNetIoRecv at a fresh session and one with an incomplete packet.
use network.Prelude.{
  none, ℕ, ◌≡◌, false, refl, inl, List, [], ◌∷◌, ◌++◌, arith, replicate, length-replicate,
}
use network.Packet.{check}
use network.Packet.Cipher.{decrypt}
use network.Recv.{RecvIo, IsValid, receive, recv, overlaps, prepare_buffer}
use network.Recv.Space.{pending}
use network.Recv.Frames.{IsPacket, flatten}
use network.Recv.Round.{Received, receive-Received, answer}
use network.Recv.Delivery.{Run, begin, round, Delivered, Run-Delivered, Run-flatten}

abbrev memory : List ℕ
memory = replicate 32500 0

abbrev fresh : RecvIo
fresh = record { buf = memory; size = 32500; begin_pos = 0; end_pos = 0; messages = [] }

fresh-IsValid : IsValid fresh
fresh-IsValid = omega (arith, length-replicate {A = ℕ} 32500 0)

abbrev hello : List ℕ
hello = 5 ∷ 0 ∷ 1 ∷ 0 ∷ 42 ∷ []

abbrev bye : List ℕ
bye = 6 ∷ 0 ∷ 2 ∷ 0 ∷ 1 ∷ 2 ∷ []

hello-IsPacket : IsPacket hello
unfolding check
hello-IsPacket = record { checked = refl; least = omega arith; whole = refl }

bye-IsPacket : IsPacket bye
unfolding check
bye-IsPacket = record { checked = refl; least = omega arith; whole = refl }

fresh-apart : overlaps fresh ≡ false
unfolding overlaps
fresh-apart = refl

abbrev first : Received fresh (hello ++ bye) (receive 32500 (hello ++ bye) fresh)
first =
    receive-Received 32500 (hello ++ bye) fresh fresh-IsValid (inl (omega arith)) fresh-apart
      (omega arith) (omega arith)

abbrev connection : Run fresh (hello ++ bye) (answer first.good) first.after
connection =
    round 32500 (hello ++ bye) begin fresh-apart (omega arith) (omega arith) refl first.result

Run-Delivered_example : Delivered fresh (hello ++ bye) (answer first.good) first.after
Run-Delivered_example = Run-Delivered fresh-IsValid (inl (omega arith)) connection

Run-flatten_example :
    (answer first.good ≡ recv)
    × (first.after.messages ≡ decrypt hello ∷ decrypt bye ∷ [])
    × (pending first.after ≡ [])
unfolding flatten
Run-flatten_example =
    Run-flatten (hello ∷ bye ∷ []) fresh-IsValid refl (hello-IsPacket, (bye-IsPacket, tt))
      connection

-- Ten bytes of a packet that is done with, and a hundred of the next: PrepareBuffer would copy bytes that overlap.
overlapping :
    receive 32500
      (1 ∷ [])
      (record { buf = memory; size = 32500; begin_pos = 10; end_pos = 110; messages = [] })
    ≡ none
unfolding receive prepare_buffer overlaps
overlapping = refl

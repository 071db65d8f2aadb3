-- ===== src/Send/Tests.antt =====
-- The theorems on HNetIoSend at a fresh ring.
use network.Prelude.{
  ℕ, ◌≡◌, refl, true, false, List, [], ◌∷◌, ◌++◌, arith, replicate, length-replicate,
}
use network.Send.{
  SendIo, empty_gathering, send, done, endless, post, sended, append, append_loop, next_buffer,
}
use network.Send.Queue.{IsValid, concat, waiting, accepted}
use network.Send.Steps.{Sends, send-Sends}
use network.Send.Order.{Reach, start, sends, posts, completes, Reach-fifo, drain, drain-idle}
use network.Send.Job.{ring, holding, send_job, sended_job, send_job-shares}
use network.Send.{head_bytes}
use network.Send.Stuck.{send-endless}

abbrev unmade : SendIo
unmade = record {
  ahead = [];
  tail = empty_gathering;
  free = [];
  made = false;
  pending = false;
  locked = false;
  due = false;
  sent = [];
}

abbrev fresh : SendIo
fresh = record unmade { made = true }

fresh-IsValid : IsValid fresh
fresh-IsValid = record {
  made = refl;
  unlocked = refl;
  free = tt;
  busy = λ q. cc q;
  idle = λ _. (refl, refl, refl);
}

abbrev first : List ℕ
first = 5 ∷ 0 ∷ 1 ∷ 0 ∷ 7 ∷ []

abbrev second : List ℕ
second = 4 ∷ 0 ∷ 2 ∷ 0 ∷ []

-- The first send is in its own buffer, and `_Send` is due.
abbrev sending : SendIo
sending = record fresh {
  ahead = record { bytes = first; count = 1 } ∷ [];
  pending = true;
  due = true;
}

send-first : send 2 first fresh ≡ done sending
unfolding send append_loop append next_buffer
send-first = refl

-- A second one joins while the first is being sent.
abbrev both : SendIo
both = record (post sending) { tail = record { bytes = second; count = 1 } }

send-second : send 2 second (post sending) ≡ done both
unfolding send append_loop append post
send-second = refl

sending-IsValid : IsValid sending
sending-IsValid = record {
  made = refl;
  unlocked = refl;
  free = tt;
  busy = λ _. tt;
  idle = λ q. cc q;
}

history : Reach fresh (first ∷ second ∷ []) (sended both)
unfolding post
history =
    completes
      (sends 0 second (posts (sends 0 first start (omega arith) refl send-first) refl refl)
        (omega arith) refl send-second)
      refl refl

Reach-fifo_example :
    (concat (sended both).sent ++ waiting (sended both) ≡ [] ++ (first ++ second ++ []))
    × ((sended both).pending ≡ false → concat (sended both).sent ≡ [] ++ (first ++ second ++ []))
Reach-fifo_example = Reach-fifo fresh-IsValid refl history

drain-idle_example :
    ((drain 1 sending).pending ≡ false) × (concat (drain 1 sending).sent ≡ accepted sending)
drain-idle_example = drain-idle 1 sending sending-IsValid refl refl (omega arith)

send-Sends_example : (u : SendIo) × (send 2 second sending ≡ done u) × Sends sending second u
send-Sends_example = send-Sends 0 second sending sending-IsValid (omega arith)

-- A packet of MAX_SIZE bytes.
send-endless_example : send 1000 (replicate 32500 0) fresh ≡ endless
send-endless_example =
    send-endless 1000 (replicate 32500 0) fresh refl refl
      (omega (arith, length-replicate {A = ℕ} 32500 0))

send_job-shares_example :
    let t = ring (holding first 1) true false [] in
    let u = post (sended_job t) in
    let w = ring (holding (first ++ second) 2) true false (first ∷ []) in
    (send_job 1 first (ring empty_gathering false false []) ≡ done t)
    × (u.sent ≡ first ∷ [])
    × (send_job 1 second u ≡ done w)
    × (head_bytes w ≡ first ++ second)
send_job-shares_example = send_job-shares first second (omega arith)

-- ===== src/Send/Stuck.antt =====
-- Where HNetIoSend::Send does not come back.
use network.Prelude.{
  ℕ, zero, suc, ◌≡◌, ◌≤◌, refl, true, false, none, List, length, arith, if◌then◌else◌, some,
}
use network.Packet.{max_size}
use network.Send.{SendIo, append_loop, next_buffer, send, done, blocked, endless}
use network.Send.Queue.{append_full}

append_loop_endless :
    (fuel : ℕ) (buf : List ℕ) (s : SendIo) → max_size ≤ length buf → append_loop fuel buf s ≡ none
unfolding append_loop
append_loop_endless zero buf s h = refl
append_loop_endless (suc fuel) buf s h =
    rw (append_loop, append_full s.tail buf (omega arith))
      (append_loop_endless fuel buf (next_buffer s) h)

-- With a message of MAX_SIZE bytes or more, which Check may have accepted, Send on a ring that is
-- made and not locked does not come out of its loop, however many turns it takes.
pub send-endless :
    (fuel : ℕ) (buf : List ℕ) (s : SendIo)
    → s.locked ≡ false
    → s.made ≡ true
    → max_size ≤ length buf
    → send fuel buf s ≡ endless
unfolding send
send-endless fuel buf s l m h = λ i.
    if l i
    then blocked
    else (if m i
        then (elim (append_loop_endless fuel buf s h i) [
          | none ↦ endless
          | some t ↦
              if t.pending
              then done t
              else done (next_buffer (record t { pending = true; due = true }))
        ])
        else done (record s { locked = true }))

-- Send on a ring that is not made and not locked returns with the lock held, and the next call
-- waits for it.
pub send-blocked :
    (fuel fuel' : ℕ) (buf buf' : List ℕ) (s : SendIo)
    → s.locked ≡ false
    → s.made ≡ false
    → (send fuel buf s ≡ done (record s { locked = true }))
      × (send fuel' buf' (record s { locked = true }) ≡ blocked)
unfolding send
send-blocked fuel fuel' buf buf' s l m = (ground arith, refl)

-- ===== src/Send/Steps.antt =====
-- The calls on the ring one by one: Send, `_Send`, and Sended.
use network.Prelude.{
  ℕ, suc, ◌≡◌, ◌<◌, ◌∙◌, ap, sym, subst, refl, true, false, Bool, some, none, List, [], ◌∷◌, ◌++◌,
  if◌then◌else◌, length, append_assoc, append-nil, Bool-cases, inl, inr,
}
use network.Packet.{max_size}
use network.Send.{
  Gathering, SendIo, next_buffer, append_loop, send, done, blocked, endless, head_bytes, post,
}
use network.Send.Queue.{
  flatten, unsent, Busy, IsValid, waiting, accepted, concat, concat-append, Moved,
  next_buffer-Moved,
}
use network.Send.Storing.{Stored, append_loop-Stored, head_bytes_lem, Busy-cases}

-- What a call of Send does to a valid ring.
pub record Sends (s : SendIo) (buf : List ℕ) (u : SendIo) : Type 0 where
  pub accepts : accepted u ≡ accepted s ++ buf
  pub sent : u.sent ≡ s.sent
  pub pending : u.pending ≡ true
  pub due : u.due ≡ (if s.pending then s.due else true)
  pub head : s.pending ≡ true → head_bytes u ≡ head_bytes s
  pub valid : IsValid u

-- The state after the loop, and what the first of a series of sends makes of it.
abbrev closed : SendIo → SendIo
closed t = if t.pending then t else next_buffer (record t { pending = true; due = true })

if-done : (b : Bool) (t u : SendIo) → (if b then done t else done u) ≡ done (if b then t else u)
if-done true t u = refl
if-done false t u = refl

send-closed :
    (fuel : ℕ) (buf : List ℕ) (s t : SendIo)
    → IsValid s
    → append_loop fuel buf s ≡ some t
    → send fuel buf s ≡ done (closed t)
unfolding send
send-closed fuel buf s t v e =
    (λ i.
      if v.unlocked i
      then blocked
      else (if v.made i
          then (elim (e i) [
            | none ↦ endless
            | some t ↦
                if t.pending
                then done t
                else done (next_buffer (record t { pending = true; due = true }))
          ])
          else done (record s { locked = true })))
    ∙ if-done t.pending t (next_buffer (record t { pending = true; due = true }))

accepted_eq :
    (s t : SendIo) (buf : List ℕ)
    → t.sent ≡ s.sent
    → waiting t ≡ waiting s ++ buf
    → accepted t ≡ accepted s ++ buf
accepted_eq s t buf e w =
    (λ i. concat (e i) ++ w i) ∙ sym (append_assoc (concat s.sent) (waiting s) buf)

closed_busy :
    (s t : SendIo) (buf : List ℕ)
    → IsValid s
    → Stored s buf t
    → s.pending ≡ true
    → Sends s buf (closed t)
closed_busy s t buf v r p = subst (Sends s buf) (sym open_still) (record {
  accepts = accepted_eq s t buf r.sent r.waits;
  sent = r.sent;
  pending = r.pending ∙ p;
  due = rw p r.due;
  head = r.head;
  valid = record {
    made = r.made ∙ v.made;
    unlocked = r.locked ∙ v.unlocked;
    free = r.free;
    busy = λ q. r.busy p;
    idle = λ q. cc (r.pending, p, q);
  };
})
  where
    open_still : closed t ≡ t
    open_still =
        ap (λ b. if b then t else next_buffer (record t { pending = true; due = true }))
          (r.pending ∙ p)

closed_idle :
    (s t : SendIo) (buf : List ℕ)
    → IsValid s
    → Stored s buf t
    → s.pending ≡ false
    → Sends s buf (closed t)
closed_idle s t buf v r p =
    let (c, d, e) = v.idle p in
    let (a, b) = r.idle p in
    let ahead = m.ahead ∙ ap (λ l. l ++ t.tail ∷ []) a in
    let before : waiting s ≡ [] = rw (c, d, e) refl in
    subst (Sends s buf) (sym turned) (record {
      accepts = accepted_eq s u buf (m.sent ∙ r.sent) (
          (λ i. (if m.due i then flatten (ahead i) else unsent (ahead i)) ++ m.empty i)
          ∙ append-nil (t.tail.bytes ++ [])
          ∙ append-nil t.tail.bytes
          ∙ b
          ∙ ap (λ l. l ++ buf) (sym before));
      sent = m.sent ∙ r.sent;
      pending = m.pending;
      due = m.due ∙ ap (λ k. if k then s.due else true) (sym p);
      head = λ q. cc (p, q);
      valid = record {
        made = m.made ∙ r.made ∙ v.made;
        unlocked = m.locked ∙ r.locked ∙ v.unlocked;
        free = m.free;
        busy = λ q. subst Busy (sym ahead) tt;
        idle = λ q. cc (m.pending, q);
      };
    })
  where
    u : SendIo
    u = next_buffer (record t { pending = true; due = true })

    m : Moved (record t { pending = true; due = true }) u
    m = next_buffer-Moved (record t { pending = true; due = true }) r.free

    turned : closed t ≡ u
    turned = ap (λ b. if b then t else u) (r.pending ∙ p)

-- On a valid ring Send of a message shorter than MAX_SIZE comes out of its loop within two turns:
-- the message is accepted behind all that was accepted before, nothing is posted yet, a send is
-- under way, the buffer that is being sent is not changed, `_Send` is due if it was or if no send
-- was under way, and the ring is valid.
pub send-Sends :
    (fuel : ℕ) (buf : List ℕ) (s : SendIo)
    → IsValid s
    → length buf < max_size
    → (u : SendIo) × (send (suc (suc fuel)) buf s ≡ done u) × Sends s buf u
send-Sends fuel buf s v h =
    let (t, e, r) = append_loop-Stored fuel buf s v h in
    (
      closed t,
      send-closed (suc (suc fuel)) buf s t v e,
      elim (Bool-cases s.pending) [
        | inl p ↦ closed_busy s t buf v r p
        | inr p ↦ closed_idle s t buf v r p
      ],
    )

-- `_Send` gives the head to WSASend: it is accepted as before.
pub post-accepted :
    (s : SendIo)
    → IsValid s
    → s.pending ≡ true
    → s.due ≡ true
    → (accepted (post s) ≡ accepted s) × IsValid (post s)
unfolding post
post-accepted s v p d =
    let (x, xs, e, _) = Busy-cases s.ahead (v.busy p) in
    (
      ap (λ c. c ++ (unsent s.ahead ++ s.tail.bytes)) (concat-append s.sent (head_bytes s ∷ []))
          ∙ append_assoc (concat s.sent) (head_bytes s ++ []) (unsent s.ahead ++ s.tail.bytes)
          ∙ ap (λ l. concat s.sent ++ l) (posted x xs e),
      record {
        made = v.made;
        unlocked = v.unlocked;
        free = v.free;
        busy = v.busy;
        idle = λ q. let (a, b, _) = v.idle q in (a, b, refl);
      },
    )
  where
    posted :
        (x : Gathering) (xs : List Gathering)
        → s.ahead ≡ x ∷ xs
        → (head_bytes s ++ []) ++ (unsent s.ahead ++ s.tail.bytes) ≡ waiting s
    posted x xs e =
        ap (λ l. l ++ (unsent s.ahead ++ s.tail.bytes))
          (append-nil (head_bytes s) ∙ head_bytes_lem s x xs e)
        ∙ (λ i. x.bytes ++ (unsent (e i) ++ s.tail.bytes))
        ∙ sym (append_assoc x.bytes (flatten xs) s.tail.bytes)
        ∙ (λ i. (if sym d i then flatten (sym e i) else unsent (sym e i)) ++ s.tail.bytes)

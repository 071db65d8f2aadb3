-- ===== src/Send/Storing.antt =====
-- HNetIoSend::Send: what is accepted joins what waits, behind all of it.
use network.Prelude.{
  ℕ, suc, ◌≡◌, ◌≤◌, ◌<◌, ◌+◌, ◌∙◌, ap, sym, subst, refl, true, false, some, List, [], ◌∷◌, ◌++◌,
  length, arith, append_assoc, Bool-cases, inl, inr, leb, leb→le, leb→gt,
}
use network.Packet.{max_size}
use network.Send.{Gathering, SendIo, next_buffer, append_loop, head_bytes}
use network.Send.Queue.{
  AllFilled, AllFree, Busy, IsValid, queued, waiting, append_fits, append_full, Moved,
  next_buffer-Moved, queued_moved, AllFilled-append,
}

-- The tail with a message behind what it holds.
abbrev grown : Gathering → List ℕ → Gathering
grown g buf = record { bytes = g.bytes ++ buf; count = g.count + 1 }

append_loop_room :
    (fuel : ℕ) (buf : List ℕ) (s : SendIo)
    → length buf + length s.tail.bytes < max_size
    → append_loop (suc fuel) buf s ≡ some (record s { tail = grown s.tail buf })
unfolding append_loop
append_loop_room fuel buf s h = rw (append_loop, append_fits s.tail buf h) refl

append_loop_full :
    (fuel : ℕ) (buf : List ℕ) (s : SendIo)
    → max_size ≤ length buf + length s.tail.bytes
    → append_loop (suc fuel) buf s ≡ append_loop fuel buf (next_buffer s)
unfolding append_loop
append_loop_full fuel buf s h = rw (append_loop, append_full s.tail buf h) refl

-- What the loop of Send leaves.
pub record Stored (s : SendIo) (buf : List ℕ) (t : SendIo) : Type 0 where
  pub waits : waiting t ≡ waiting s ++ buf
  pub head : s.pending ≡ true → head_bytes t ≡ head_bytes s
  pub made : t.made ≡ s.made
  pub pending : t.pending ≡ s.pending
  pub locked : t.locked ≡ s.locked
  pub due : t.due ≡ s.due
  pub sent : t.sent ≡ s.sent
  pub free : AllFree t.free
  pub busy : s.pending ≡ true → Busy t.ahead
  pub idle : s.pending ≡ false → (t.ahead ≡ []) × (t.tail.bytes ≡ buf)

pub head_bytes_lem :
    (s : SendIo) (x : Gathering) (xs : List Gathering) → s.ahead ≡ x ∷ xs → head_bytes s ≡ x.bytes
unfolding head_bytes
head_bytes_lem s x xs e = rw (e, head_bytes) refl

pub Busy-cases :
    (a : List Gathering)
    → Busy a
    → (x : Gathering) × (xs : List Gathering) × (a ≡ x ∷ xs) × AllFilled xs
Busy-cases [] b = absurd b
Busy-cases (x ∷ xs) b = (x, xs, refl, b)

room-Stored :
    (buf : List ℕ) (s : SendIo) → IsValid s → Stored s buf (record s { tail = grown s.tail buf })
room-Stored buf s v = record {
  waits = sym (append_assoc (queued s) s.tail.bytes buf);
  head = λ p.
      let (x, xs, e, _) = Busy-cases s.ahead (v.busy p) in
      head_bytes_lem (record s { tail = grown s.tail buf }) x xs e ∙ sym (head_bytes_lem s x xs e);
  made = refl;
  pending = refl;
  locked = refl;
  due = refl;
  sent = refl;
  free = v.free;
  busy = v.busy;
  idle = λ p. let (a, b, _) = v.idle p in (a, ap (λ l. l ++ buf) b);
}

Busy-append :
    (a : List Gathering) (g : Gathering) → Busy a → 0 < length g.bytes → Busy (a ++ g ∷ [])
Busy-append [] g b h = absurd b
Busy-append (x ∷ xs) g b h = AllFilled-append xs g b h

full-Stored :
    (buf : List ℕ) (s t : SendIo)
    → IsValid s
    → s.pending ≡ true
    → 0 < length s.tail.bytes
    → Moved s t
    → Stored s buf (record t { tail = grown t.tail buf })
full-Stored buf s t v p h m =
    let (x, xs, e, _) = Busy-cases s.ahead (v.busy p) in
    record {
      waits = ap (λ l. queued t ++ (l ++ buf)) m.empty ∙ ap (λ l. l ++ buf) waits_moved;
      head = λ _.
          head_bytes_lem (record t { tail = grown t.tail buf }) x (xs ++ s.tail ∷ [])
            (m.ahead ∙ ap (λ l. l ++ s.tail ∷ []) e)
          ∙ sym (head_bytes_lem s x xs e);
      made = m.made;
      pending = m.pending;
      locked = m.locked;
      due = m.due;
      sent = m.sent;
      free = m.free;
      busy = λ q. subst Busy (sym m.ahead) (Busy-append s.ahead s.tail (v.busy q) h);
      idle = λ q. cc (p, q);
    }
  where
    waits_moved : queued t ≡ waiting s
    waits_moved = rw (m.due, m.ahead) (queued_moved s.due s.ahead s.tail (v.busy p))

-- One turn more than the first is enough: a new buffer takes any message shorter than it.
pub append_loop-Stored :
    (fuel : ℕ) (buf : List ℕ) (s : SendIo)
    → IsValid s
    → length buf < max_size
    → (t : SendIo) × (append_loop (suc (suc fuel)) buf s ≡ some t) × Stored s buf t
append_loop-Stored fuel buf s v h =
    elim (Bool-cases (leb max_size (length buf + length s.tail.bytes))) [
      | inr room ↦ (
        record s { tail = grown s.tail buf },
        append_loop_room (suc fuel) buf s (leb→gt _ _ room),
        room-Stored buf s v,
      )
      | inl full ↦
          let t = next_buffer s in
          let m = next_buffer-Moved s v.free in
          let k = leb→le _ _ full in
          (
            record t { tail = grown t.tail buf },
            append_loop_full (suc fuel) buf s k
                ∙ append_loop_room fuel buf t (omega (arith, ap length m.empty)),
            full-Stored buf s t v (under_way k) (omega arith) m,
          )
    ]
  where
    under_way : max_size ≤ length buf + length s.tail.bytes → s.pending ≡ true
    under_way k = elim (Bool-cases s.pending) [
      | inl e ↦ e
      | inr e ↦ absurd (omega (arith, ap length (v.idle e).1))
    ]

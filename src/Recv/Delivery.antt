-- ===== src/Recv/Delivery.antt =====
-- What a session hands on over a whole connection: Recved after each WSARecv.
use network.Prelude.{
  ℕ, ◌≡◌, ◌≤◌, ◌<◌, ◌+◌, ◌-◌, ◌∙◌, ap, sym, refl, subst, inl, true, false, Bool, Option, some, List,
  [], ◌++◌, map, length, take, drop, arith, append_assoc, append-nil,
}
use mathlib.Core.List.{map-append}
use network.Packet.Cipher.{decrypt}
use network.Recv.{RecvIo, IsValid, Next, recv, receive, overlaps}
use network.Recv.Space.{pending}
use network.Recv.Frames.{
  Frames, IsPartial, partial, Frames-append, Frames-unique, flatten, AllPackets, flatten-Frames,
}
use network.Recv.Round.{rest-IsPartial, answer, Received, receive-Received}

-- A connection: rounds of WSARecv and Recved from a state `s`, with the bytes that have come. The
-- system delivers a chunk of at least a byte, and never more than the buffer has left. The bytes kept do not overlap
-- with where PrepareBuffer moves them: its memcpy is undefined there.
pub data Run (s : RecvIo) : List ℕ → Next → RecvIo → Type 0 where
  begin : Run s [] recv s
  round :
      {x y : List ℕ} {n : Next} {t u : RecvIo} (stale : ℕ) (chunk : List ℕ)
      → Run s x recv t
      → overlaps t ≡ false
      → 0 < length chunk
      → (t.end_pos - t.begin_pos) + length chunk ≤ t.size
      → y ≡ x ++ chunk
      → receive stale chunk t ≡ some (n, u)
      → Run s y n u

-- The next round returns, whatever chunk it brings, where the memcpy of PrepareBuffer is defined.
abbrev pub Returns : RecvIo → Type 0
Returns s =
    (stale : ℕ) (chunk : List ℕ)
    → overlaps s ≡ false
    → 0 < length chunk
    → (s.end_pos - s.begin_pos) + length chunk ≤ s.size
    → (n : Next) × (u : RecvIo) × (receive stale chunk s ≡ some (n, u))

-- What a connection has handed on.
pub record Delivered (s : RecvIo) (x : List ℕ) (n : Next) (u : RecvIo) : Type 0 where
  pub good : Bool
  pub packets : List (List ℕ)
  pub rest : List ℕ
  pub next_eq : n ≡ answer good
  pub frames : Frames (pending s ++ x) packets rest good
  pub messages : u.messages ≡ s.messages ++ map decrypt packets
  pub kept : good ≡ true → pending u ≡ rest
  pub valid : IsValid u
  pub returns : n ≡ recv → Returns u

pub answer_recv : (good : Bool) → recv ≡ answer good → good ≡ true
answer_recv true e = refl
answer_recv false e = cc e

partial-Returns : (s : RecvIo) → IsValid s → IsPartial (pending s) → Returns s
partial-Returns s v h stale chunk apart p f =
    let r = receive-Received stale chunk s v h apart p f in (answer r.good, r.after, r.result)

-- A further round on a connection.
extend :
    {s t u : RecvIo} {x y : List ℕ} {n : Next} (chunk : List ℕ) {r : Option (Next × RecvIo)}
    → Delivered s x recv t
    → Received t chunk r
    → y ≡ x ++ chunk
    → r ≡ some (n, u)
    → Delivered s y n u
extend {s} {t} {u} {x} {y} {n} chunk d g e q =
    let go_on = answer_recv d.good d.next_eq in
    let before : Frames (pending s ++ x) d.packets d.rest true =
      subst (Frames (pending s ++ x) d.packets d.rest) go_on d.frames in
    let now : Frames (d.rest ++ chunk) g.packets g.rest g.good =
      subst (λ k. Frames (k ++ chunk) g.packets g.rest g.good) (d.kept go_on) g.frames in
    let last : u ≡ g.after = cc (q, g.result) in
    let n_eq : n ≡ answer g.good = cc (q, g.result) in
    record {
      good = g.good;
      packets = d.packets ++ g.packets;
      rest = g.rest;
      next_eq = n_eq;
      frames =
          subst (λ k. Frames k (d.packets ++ g.packets) g.rest g.good)
            (append_assoc (pending s) x chunk ∙ ap (λ k. pending s ++ k) (sym e))
            (Frames-append (pending s ++ x) chunk before now);
      messages =
          ap (λ w. w.messages) last
          ∙ g.messages
          ∙ ap (λ l. l ++ map decrypt g.packets) d.messages
          ∙ append_assoc s.messages (map decrypt d.packets) (map decrypt g.packets)
          ∙ ap (λ l. s.messages ++ l) (sym (map-append decrypt d.packets g.packets));
      kept = λ k. ap pending last ∙ g.kept k;
      valid = subst IsValid (sym last) g.valid;
      returns = λ a.
          let fine = answer_recv g.good (sym a ∙ n_eq) in
          subst Returns (sym last) (
            partial-Returns g.after g.valid
              (subst IsPartial (sym (g.kept fine)) (rest-IsPartial g.frames fine)));
    }

-- From a valid session whose pending bytes are an incomplete packet, after any connection (chunks
-- of at least a byte that fit the buffer; the kept bytes never overlapping with where
-- PrepareBuffer moves them, since its memcpy is undefined there: nothing is kept, or at the front,
-- or no more than lies before it) the messages handed on are the whole packets that the
-- specification Frames cuts from the stream, decrypted and in order; the session goes on exactly
-- if Frames says that the rest may be completed, and then keeps that rest as its pending bytes and
-- returns from the next round whatever that brings, if that memcpy is defined; and it is valid.
pub Run-Delivered :
    {s u : RecvIo} {x : List ℕ} {n : Next}
    → IsValid s
    → IsPartial (pending s)
    → Run s x n u
    → Delivered s x n u
Run-Delivered {s} v h begin = record {
  good = true;
  packets = [];
  rest = pending s;
  next_eq = refl;
  frames = subst (λ k. Frames k [] (pending s) true) (sym (append-nil (pending s))) (partial h);
  messages = sym (append-nil s.messages);
  kept = λ _. refl;
  valid = v;
  returns = λ _. partial-Returns s v h;
}
Run-Delivered {s} v h (round {x = x} {t = t} stale chunk r apart p f e q) =
    let d = Run-Delivered v h r in
    let go_on = answer_recv d.good d.next_eq in
    let held = subst IsPartial (sym (d.kept go_on)) (rest-IsPartial d.frames go_on) in
    extend chunk d (receive-Received stale chunk t d.valid held apart p f) e q

-- On a valid session with nothing pending, let a connection bring exactly the bytes of some whole
-- packets (Check accepts each header, and each is as long as its header says), in chunks of any
-- size that fit the buffer, the kept bytes never overlapping with where PrepareBuffer moves them,
-- since its memcpy is undefined there: nothing is kept, or at the front, or no more than lies
-- before it. Then every one of them is handed on, decrypted, once and in order, nothing is left
-- pending, and the session asks for more bytes.
pub Run-flatten :
    {s u : RecvIo} {n : Next} (ps : List (List ℕ))
    → IsValid s
    → s.begin_pos ≡ s.end_pos
    → AllPackets ps
    → Run s (flatten ps) n u
    → (n ≡ recv) × (u.messages ≡ s.messages ++ map decrypt ps) × (pending u ≡ [])
Run-flatten {s} {u} {n} ps v e a r =
    let empty : pending s ≡ [] =
      ap (λ k. take k (drop s.begin_pos s.buf)) {x = s.end_pos - s.begin_pos} {y = 0}
        (omega arith) in
    let d = Run-Delivered v (subst IsPartial (sym empty) (inl (omega arith))) r in
    let (all, left, fine) =
      Frames-unique (subst (λ k. Frames (k ++ flatten ps) d.packets d.rest d.good) empty d.frames)
        (flatten-Frames ps a) in
    (
      d.next_eq ∙ ap answer fine,
      d.messages ∙ ap (λ l. s.messages ++ map decrypt l) all,
      d.kept fine ∙ left,
    )

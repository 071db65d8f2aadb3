-- ===== src/Recv/Single/Served.antt =====
-- What a single-threaded server hands on over a whole connection.
use network.Prelude.{
  length, ◌-◌, ◌+◌, ◌≤◌, ◌<◌, ℕ, false, ◌≡◌, ◌∙◌, ap, sym, refl, subst, inl, inr, true, Bool,
  Option, some, List, [], ◌++◌, map, append_assoc, append-nil, Bool-cases,
}
use mathlib.Core.List.{map-append}
use network.Packet.{max_size}
use network.Packet.Cipher.{decrypt}
use network.Recv.{overlaps, IsValid, Next, recv}
use network.Recv.Space.{pending}
use network.Recv.Frames.{Frames, IsPartial, partial, Frames-append}
use network.Recv.Round.{rest-IsPartial, answer}
use network.Recv.Delivery.{answer_recv}
use network.Recv.Single.{
  Server, receive_job, update, Serve, begin_serving, serve_round, serve_update,
}
use network.Recv.Single.Round.{Round, receive_job-Round}
use network.Recv.Single.Queued.{Queued, no_job, Queued-push, update-Queued}

-- The state of a single-threaded server after a connection: `done` was handed on, `waiting` is in
-- the queue, `missed` is in neither.
pub record Served (s : Server) (x : List ℕ) (n : Next) (u : Server) : Type 0 where
  pub good : Bool
  pub packets : List (List ℕ)
  pub rest : List ℕ
  pub done : List (List ℕ)
  pub waiting : List (List ℕ)
  pub missed : List (List ℕ)
  pub next_eq : n ≡ answer good
  pub frames : Frames (pending s.io ++ x) packets rest good
  pub parts : packets ≡ (done ++ waiting) ++ missed
  pub none_missed : good ≡ true → missed ≡ []
  pub handed : u.handed ≡ s.handed ++ map decrypt done
  pub queued : Queued u.queue waiting
  pub kept : good ≡ true → pending u.io ≡ rest
  pub valid : IsValid u.io

-- A further round: a good one queues its packets, and a bad one misses them.
module _ {s t u : Server} {x y : List ℕ} {n : Next} (chunk : List ℕ) {r : Option (Next × Server)}
    (d : Served s x recv t) (g : Round t chunk r) (e : y ≡ x ++ chunk) (q : r ≡ some (n, u)) where
  last : u ≡ g.after
  last = cc (q, g.result)

  go_on : d.good ≡ true
  go_on = answer_recv d.good d.next_eq

  all_packets : d.packets ≡ d.done ++ d.waiting
  all_packets = d.parts ∙ ap (λ l. (d.done ++ d.waiting) ++ l) (d.none_missed go_on) ∙ append-nil _

  frames_on : Frames (pending s.io ++ y) (d.packets ++ g.packets) g.rest g.good
  frames_on =
      let before : Frames (pending s.io ++ x) d.packets d.rest true =
        subst (Frames (pending s.io ++ x) d.packets d.rest) go_on d.frames in
      let now : Frames (d.rest ++ chunk) g.packets g.rest g.good =
        subst (λ k. Frames (k ++ chunk) g.packets g.rest g.good) (d.kept go_on) g.frames in
      subst (λ k. Frames k (d.packets ++ g.packets) g.rest g.good)
        (append_assoc (pending s.io) x chunk ∙ ap (λ k. pending s.io ++ k) (sym e))
        (Frames-append (pending s.io ++ x) chunk before now)

  handed_on : u.handed ≡ s.handed ++ map decrypt d.done
  handed_on = ap (λ w. w.handed) last ∙ g.handed ∙ d.handed

  round-Served : Served s y n u
  round-Served = elim (Bool-cases g.good) [
    | inl k ↦ record {
      good = g.good;
      packets = d.packets ++ g.packets;
      rest = g.rest;
      done = d.done;
      waiting = d.waiting ++ g.packets;
      missed = [];
      next_eq = cc (q, g.result);
      frames = frames_on;
      parts =
          ap (λ l. l ++ g.packets) all_packets
          ∙ append_assoc d.done d.waiting g.packets
          ∙ sym (append-nil _);
      none_missed = λ _. refl;
      handed = handed_on;
      queued =
          let (job, pushed, holds) = g.queued k in
          subst (λ l. Queued l (d.waiting ++ g.packets)) (sym (ap (λ w. w.queue) last ∙ pushed))
            (Queued-push d.queued holds);
      kept = λ k. ap (λ w. pending w.io) last ∙ g.kept k;
      valid = subst (λ w. IsValid w.io) (sym last) g.valid;
    }
    | inr k ↦ record {
      good = g.good;
      packets = d.packets ++ g.packets;
      rest = g.rest;
      done = d.done;
      waiting = d.waiting;
      missed = g.packets;
      next_eq = cc (q, g.result);
      frames = frames_on;
      parts = ap (λ l. l ++ g.packets) all_packets;
      none_missed = λ fine. cc (k, fine);
      handed = handed_on;
      queued =
          subst (λ l. Queued l d.waiting) (sym (ap (λ w. w.queue) last ∙ g.dropped k)) d.queued;
      kept = λ k. ap (λ w. pending w.io) last ∙ g.kept k;
      valid = subst (λ w. IsValid w.io) (sym last) g.valid;
    }
  ]

-- A call of Update hands on what waits.
update-Served :
    {s t u : Server} {x : List ℕ} {n : Next} → Served s x n t → update t ≡ some u → Served s x n u
update-Served {s} {t} {u} d e =
    let last : record t { queue = []; handed = t.handed ++ map decrypt d.waiting } ≡ u =
      cc (update-Queued t d.waiting d.queued, e) in
    subst (Served _ _ _) last (record {
      good = d.good;
      packets = d.packets;
      rest = d.rest;
      done = d.done ++ d.waiting;
      waiting = [];
      missed = d.missed;
      next_eq = d.next_eq;
      frames = d.frames;
      parts = d.parts ∙ ap (λ l. l ++ d.missed) (sym (append-nil _));
      none_missed = d.none_missed;
      handed =
          ap (λ l. l ++ map decrypt d.waiting) d.handed
          ∙ append_assoc s.handed (map decrypt d.done) (map decrypt d.waiting)
          ∙ ap (λ l. s.handed ++ l) (sym (map-append decrypt d.done d.waiting));
      queued = no_job;
      kept = d.kept;
      valid = d.valid;
    })

pub Serve-Served :
    {s u : Server} {x : List ℕ} {n : Next}
    → IsValid s.io
    → IsPartial (pending s.io)
    → s.queue ≡ []
    → Serve s x n u
    → Served s x n u
Serve-Served {s} v h z begin_serving = record {
  good = true;
  packets = [];
  rest = pending s.io;
  done = [];
  waiting = [];
  missed = [];
  next_eq = refl;
  frames =
      subst (λ k. Frames k [] (pending s.io) true) (sym (append-nil (pending s.io))) (partial h);
  parts = refl;
  none_missed = λ _. refl;
  handed = sym (append-nil s.handed);
  queued = subst (λ l. Queued l []) (sym z) no_job;
  kept = λ _. refl;
  valid = v;
}
Serve-Served v h z (serve_round {t = t} stale chunk memory r apart p f whole e q) =
    let d = Serve-Served v h z r in
    let fine = answer_recv d.good d.next_eq in
    let held = subst IsPartial (sym (d.kept fine)) (rest-IsPartial d.frames fine) in
    round-Served chunk d (receive_job-Round stale chunk memory t d.valid held apart p f whole) e q
Serve-Served v h z (serve_update r e) = update-Served (Serve-Served v h z r) e

-- The next round returns, whatever chunk it brings, where the memcpy of PrepareBuffer is defined.
abbrev pub Returns : Server → Type 0
Returns s =
    (stale : ℕ) (chunk memory : List ℕ)
    → overlaps s.io ≡ false
    → 0 < length chunk
    → (s.io.end_pos - s.io.begin_pos) + length chunk ≤ s.io.size
    → length memory ≡ max_size
    → (n : Next) × (u : Server) × (receive_job stale chunk memory s ≡ some (n, u))

partial-Returns : (s : Server) → IsValid s.io → IsPartial (pending s.io) → Returns s
partial-Returns s v h stale chunk memory apart p f whole =
    let r = receive_job-Round stale chunk memory s v h apart p f whole in
    (answer r.good, r.after, r.result)

-- What a connection comes to with the next call of Update.
pub record Handed (s : Server) (x : List ℕ) (n : Next) (u : Server) : Type 0 where
  pub good : Bool
  pub packets : List (List ℕ)
  pub rest : List ℕ
  pub told : List (List ℕ)
  pub missed : List (List ℕ)
  pub next_eq : n ≡ answer good
  pub frames : Frames (pending s.io ++ x) packets rest good
  pub parts : packets ≡ told ++ missed
  pub none_missed : good ≡ true → missed ≡ []
  pub updated : update u ≡ some (record u { queue = []; handed = s.handed ++ map decrypt told })
  pub returns : n ≡ recv → Returns u

-- On a single-threaded server with no job queued for a valid session whose pending bytes are an
-- incomplete packet, let receives (chunks of at least a byte that fit the buffer, each with a new
-- buffer of MAX_SIZE bytes; the kept bytes never overlapping with where PrepareBuffer moves them,
-- since its memcpy is undefined there: nothing is kept, or at the front, or no more than lies
-- before it) and calls of Update take turns in any order: then the specification Frames cuts
-- packets from the stream, the session goes on exactly if Frames says that the rest may be
-- completed, and a further Update ends with the queue empty and with the packets handed on,
-- decrypted, once and in order: all of them if the session goes on, and otherwise those before
-- some that are lost. A session that goes on returns from the next round whatever that brings, if
-- that memcpy is defined.
pub Serve-Handed :
    {s u : Server} {x : List ℕ} {n : Next}
    → IsValid s.io
    → IsPartial (pending s.io)
    → s.queue ≡ []
    → Serve s x n u
    → Handed s x n u
Serve-Handed {s} {u} v h z r =
    let d = Serve-Served v h z r in
    record {
      good = d.good;
      packets = d.packets;
      rest = d.rest;
      told = d.done ++ d.waiting;
      missed = d.missed;
      next_eq = d.next_eq;
      frames = d.frames;
      parts = d.parts;
      none_missed = d.none_missed;
      updated =
          update-Queued u d.waiting d.queued
          ∙ ap (λ l. some (record u { queue = []; handed = l }))
              (ap (λ l. l ++ map decrypt d.waiting) d.handed
                ∙ append_assoc s.handed (map decrypt d.done) (map decrypt d.waiting)
                ∙ ap (λ l. s.handed ++ l) (sym (map-append decrypt d.done d.waiting)));
      returns = λ a.
          let fine = answer_recv d.good (sym a ∙ d.next_eq) in
          partial-Returns u d.valid
            (subst IsPartial (sym (d.kept fine)) (rest-IsPartial d.frames fine));
    }

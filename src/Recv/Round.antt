-- ===== src/Recv/Round.antt =====
-- One round of WSARecv and Recved.
use network.Prelude.{
  ℕ, ◌≡◌, ◌≤◌, ◌<◌, ◌+◌, ◌-◌, ◌∙◌, ap, sym, refl, subst, true, false, Bool, Option, some, List,
  ◌++◌, map, length, take, drop, blit, arith, length-blit, take-blit_end, take-blit, add32, sub32,
  ne→==,
}
use network.Packet.Cipher.{decrypt}
use network.Recv.{
  RecvIo, IsValid, Next, recv, disconnect_error, completed, recved, receive, prepare_buffer,
  arrange, overlaps,
}
use network.Recv.Space.{pending, prepare-Prepared, length-pending}
use network.Recv.Frames.{Frames, IsPartial, partial, bad, next}
use network.Recv.Ends.{Cut}
use network.Recv.Loop.{loop-Cut}

-- A stream that may go on stops at an incomplete packet.
pub rest-IsPartial :
    {x : List ℕ} {ps : List (List ℕ)} {rest : List ℕ} {good : Bool}
    → Frames x ps rest good
    → good ≡ true
    → IsPartial rest
rest-IsPartial (partial h) e = h
rest-IsPartial (bad h) e = cc e
rest-IsPartial (next p y k d f) e = rest-IsPartial f e

pub completed-Cut :
    (bytes : ℕ) (s : RecvIo)
    → IsValid s
    → IsPartial (pending s)
    → 0 < bytes
    → s.end_pos + bytes ≤ s.size
    → Cut (take ((s.end_pos - s.begin_pos) + bytes) (drop s.begin_pos s.buf)) s (completed bytes s)
unfolding completed
completed-Cut bytes s v h p f =
    let e : add32 (sub32 s.end_pos s.begin_pos) bytes ≡ (s.end_pos - s.begin_pos) + bytes =
      omega (arith, v.order, v.fits, v.sized) in
    rw e (
      loop-Cut _ bytes ((s.end_pos - s.begin_pos) + bytes) s (omega arith) (record {
        valid = v;
        sum = refl;
        room = omega (arith, v.order);
        spent = λ z. absurd (omega arith);
        held = h;
      }))

-- What Recved answers to the outcome of Completed.
abbrev pub answer : Bool → Next
answer true = recv
answer false = disconnect_error

-- One round: the packets that the kept bytes and the new ones make up are handed on.
pub record Received (s : RecvIo) (chunk : List ℕ) (r : Option (Next × RecvIo)) : Type 0 where
  pub good : Bool
  pub after : RecvIo
  pub packets : List (List ℕ)
  pub rest : List ℕ
  pub result : r ≡ some (answer good, after)
  pub frames : Frames (pending s ++ chunk) packets rest good
  pub messages : after.messages ≡ s.messages ++ map decrypt packets
  pub kept : good ≡ true → pending after ≡ rest
  pub valid : IsValid after

recved-Cut :
    (bytes : ℕ) (s : RecvIo) (good : Bool) (after : RecvIo)
    → 0 < bytes
    → completed bytes s ≡ some (good, after)
    → recved bytes s ≡ some (answer good, after)
unfolding recved
recved-Cut bytes s true after p e = rw (ne→== bytes 0 (omega arith), e, recved) refl
recved-Cut bytes s false after p e = rw (ne→== bytes 0 (omega arith), e, recved) refl

-- The state `t` that PrepareBuffer left, with a chunk stored behind what is kept.
module _ (t : RecvIo) (chunk : List ℕ) (v : IsValid t) (front : t.begin_pos ≡ 0)
    (f : t.end_pos + length chunk ≤ t.size) where
  abbrev pub stored : RecvIo
  stored = record t { buf = blit t.buf t.end_pos chunk }

  pub stored-IsValid : IsValid stored
  stored-IsValid = record {
    storage = length-blit t.buf t.end_pos chunk ∙ v.storage;
    sized = v.sized;
    order = v.order;
    fits = v.fits;
  }

  pending-front : pending t ≡ take t.end_pos t.buf
  pending-front =
      ap (λ b. take (t.end_pos - b) (drop b t.buf)) front ∙ ap (λ n. take n t.buf) (omega arith)

  pub stored_stream :
      take ((t.end_pos - t.begin_pos) + length chunk) (drop t.begin_pos stored.buf)
      ≡ pending t ++ chunk
  stored_stream =
      ap (λ b. take ((t.end_pos - b) + length chunk) (drop b stored.buf)) front
      ∙ take-blit_end t.buf t.end_pos (t.end_pos - 0 + length chunk) chunk (omega arith)
          (omega (arith, v.storage))
      ∙ ap (λ l. l ++ chunk) (sym pending-front)

  pub pending-stored : pending stored ≡ pending t
  pending-stored =
      ap (λ b. take (t.end_pos - b) (drop b stored.buf)) front
      ∙ ap (λ n. take n stored.buf) {x = t.end_pos - 0} {y = t.end_pos} (omega arith)
      ∙ take-blit t.buf t.end_pos chunk
      ∙ sym pending-front

  stored-Received :
      IsPartial (pending t) → 0 < length chunk → Received t chunk (recved (length chunk) stored)
  stored-Received h p =
      let c =
        completed-Cut (length chunk) stored stored-IsValid (subst IsPartial (sym pending-stored) h)
          p f in
      record {
        good = c.good;
        after = c.after;
        packets = c.packets;
        rest = c.rest;
        result = recved-Cut (length chunk) stored c.good c.after p c.result;
        frames = subst (λ x. Frames x c.packets c.rest c.good) stored_stream c.frames;
        messages = c.messages;
        kept = c.kept;
        valid = c.valid;
      }

receive-apart :
    (stale : ℕ) (chunk : List ℕ) (s : RecvIo)
    → overlaps s ≡ false
    → let (_, at, t) = arrange stale s in
      receive stale chunk s ≡ recved (length chunk) (record t { buf = blit t.buf at chunk })
unfolding receive prepare_buffer
receive-apart stale chunk s apart = rw (receive, prepare_buffer, apart) refl

-- From a valid session whose pending bytes are an incomplete packet and do not overlap with where PrepareBuffer
-- moves them, one round with a chunk of at
-- least a byte that fits the buffer does not run out of the loop's fuel: it answers, hands on the
-- whole packets that Frames cuts from the pending bytes and the chunk, decrypted and in order,
-- keeps the rest if it may be completed, and leaves a valid session.
pub receive-Received :
    (stale : ℕ) (chunk : List ℕ) (s : RecvIo)
    → IsValid s
    → IsPartial (pending s)
    → overlaps s ≡ false
    → 0 < length chunk
    → (s.end_pos - s.begin_pos) + length chunk ≤ s.size
    → Received s chunk (receive stale chunk s)
receive-Received stale chunk s v h apart p f =
    let t = (arrange stale s).2 in
    let q = prepare-Prepared stale s v in
    let kept_size : t.end_pos ≡ s.end_pos - s.begin_pos =
      omega (arith, q.front, length-pending t q.valid, length-pending s v, ap length q.same) in
    let r =
      stored-Received t chunk q.valid q.front (omega (arith, q.valid.sized, v.sized))
        (subst IsPartial (sym q.same) h) p in
    subst (Received s chunk) (sym (receive-apart stale chunk s apart)) (
      rw q.behind (record {
        good = r.good;
        after = r.after;
        packets = r.packets;
        rest = r.rest;
        result = r.result;
        frames = subst (λ x. Frames (x ++ chunk) r.packets r.rest r.good) q.same r.frames;
        messages = r.messages ∙ ap (λ l. l ++ map decrypt r.packets) q.messages;
        kept = r.kept;
        valid = r.valid;
      }))

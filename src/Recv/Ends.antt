-- ===== src/Recv/Ends.antt =====
-- How the loop of Completed ends, and what it has done with the stream by then.
use network.Prelude.{
  ℕ, ◌≡◌, ◌≤◌, ◌+◌, ◌-◌, ap, sym, inl, true, false, Bool, Option, some, List, [], ◌++◌, map, length,
  take, drop, arith, append-nil, length-take, length-drop, add32,
}
use network.Packet.Cipher.{decrypt}
use network.Recv.{RecvIo, IsValid}
use network.Recv.Space.{pending}
use network.Recv.Frames.{Frames, IsPartial, IsBad, partial, bad}

-- What Completed has done with the stream `x`: the packets that it handed on, decrypted, and, if
-- it goes on, the rest that it keeps.
pub record Cut (x : List ℕ) (s : RecvIo) (r : Option (Bool × RecvIo)) : Type 0 where
  pub good : Bool
  pub after : RecvIo
  pub packets : List (List ℕ)
  pub rest : List ℕ
  pub result : r ≡ some (good, after)
  pub frames : Frames x packets rest good
  pub messages : after.messages ≡ s.messages ++ map decrypt packets
  pub kept : good ≡ true → pending after ≡ rest
  pub valid : IsValid after

-- What the loop needs: `incomplete` counts what is kept and what is new, it fits the buffer, and
-- what is kept is no whole packet.
pub record Ready (bytes incomplete : ℕ) (s : RecvIo) : Type 0 where
  pub valid : IsValid s
  pub sum : incomplete ≡ (s.end_pos - s.begin_pos) + bytes
  pub room : s.begin_pos + incomplete ≤ s.size
  pub spent : bytes ≡ 0 → s.end_pos ≡ s.begin_pos
  pub held : IsPartial (pending s)

abbrev pub stream : ℕ → RecvIo → List ℕ
stream incomplete s = take incomplete (drop s.begin_pos s.buf)

pub length-stream : (bytes inc : ℕ) (s : RecvIo) → Ready bytes inc s → length (stream inc s) ≡ inc
length-stream bytes inc s r = omega (
  arith,
  length-take inc (drop s.begin_pos s.buf),
  length-drop s.begin_pos s.buf,
  r.valid.storage,
  r.room,
)

-- The loop stops: all that has come is kept.
abbrev stopped : ℕ → RecvIo → RecvIo
stopped bytes s = record s { end_pos = add32 s.end_pos bytes }

pub stop-Cut :
    (bytes inc : ℕ) (s : RecvIo) {r : Option (Bool × RecvIo)}
    → Ready bytes inc s
    → IsPartial (stream inc s)
    → r ≡ some (true, stopped bytes s)
    → Cut (stream inc s) s r
stop-Cut bytes inc s r h e =
    let v = r.valid in
    let last : add32 s.end_pos bytes ≡ s.begin_pos + inc =
      omega (arith, r.sum, r.room, v.sized, v.order) in
    record {
      good = true;
      after = stopped bytes s;
      packets = [];
      rest = stream inc s;
      result = e;
      frames = partial h;
      messages = sym (append-nil s.messages);
      kept = λ _.
          ap (λ k. take k (drop s.begin_pos s.buf)) {x = add32 s.end_pos bytes - s.begin_pos}
            (omega arith);
      valid = record {
        storage = v.storage;
        sized = v.sized;
        order = omega arith;
        fits = omega (arith, r.room);
      };
    }

pub done-Cut :
    (inc : ℕ) (s : RecvIo) {r : Option (Bool × RecvIo)}
    → Ready 0 inc s
    → r ≡ some (true, s)
    → Cut (stream inc s) s r
done-Cut inc s r e = record {
  good = true;
  after = s;
  packets = [];
  rest = stream inc s;
  result = e;
  frames = partial (inl (omega (arith, length-stream 0 inc s r, r.sum, r.spent)));
  messages = sym (append-nil s.messages);
  kept = λ _.
      ap (λ k. take k (drop s.begin_pos s.buf)) {x = s.end_pos - s.begin_pos}
        (omega (arith, r.sum));
  valid = r.valid;
}

pub bad-Cut :
    (inc : ℕ) (s : RecvIo) {r : Option (Bool × RecvIo)}
    → IsValid s
    → IsBad (stream inc s)
    → r ≡ some (false, s)
    → Cut (stream inc s) s r
bad-Cut inc s v h e = record {
  good = false;
  after = s;
  packets = [];
  rest = stream inc s;
  result = e;
  frames = bad h;
  messages = sym (append-nil s.messages);
  kept = λ f. cc f;
  valid = v;
}

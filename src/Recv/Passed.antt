-- ===== src/Recv/Passed.antt =====
-- CompletedJob goes over the packets that the specification cuts from the stream.
use network.Prelude.{
  ℕ, zero, suc, ◌≡◌, ◌≤◌, ◌<◌, ◌+◌, ◌-◌, ◌∙◌, ap, sym, refl, subst, inl, inr, true, false, Bool,
  Option, some, List, [], ◌∷◌, length, take, drop, arith, length-append, length-take, drop-drop,
  Bool-cases, tests, ==→eq, leb→le, ltb→le, ltb, leb, ◌==◌, add32, sub32,
}
use network.Packet.{check, header_size}
use network.Recv.{RecvIo, IsValid, job_loop, completed_job, packet_at, is_valid, advance}
use network.Recv.Space.{pending}
use network.Recv.Frames.{Frames, IsPartial, IsBad, partial, bad, next, flatten}
use network.Recv.Step.{first-split, first-IsPacket}
use network.Recv.Ends.{Ready, stream, length-stream}
use network.Recv.Loop.{come, same_header, sizes, left, bytes', inc'}

-- What CompletedJob has done with the stream `x`: the packets that it went over, which are still
-- in the buffer.
pub record Passed (x : List ℕ) (s : RecvIo) (r : Option (Bool × RecvIo)) : Type 0 where
  pub good : Bool
  pub after : RecvIo
  pub packets : List (List ℕ)
  pub rest : List ℕ
  pub result : r ≡ some (good, after)
  pub frames : Frames x packets rest good
  pub same : (after.buf ≡ s.buf) × (after.messages ≡ s.messages)
  pub place : good ≡ true → after.begin_pos ≡ s.begin_pos + length (flatten packets)
  pub kept : good ≡ true → pending after ≡ rest
  pub valid : IsValid after

stop-Passed :
    (bytes inc : ℕ) (s : RecvIo) {r : Option (Bool × RecvIo)}
    → Ready bytes inc s
    → IsPartial (stream inc s)
    → r ≡ some (true, record s { end_pos = add32 s.end_pos bytes })
    → Passed (stream inc s) s r
unfolding flatten
stop-Passed bytes inc s r h e =
    let v = r.valid in
    let last : add32 s.end_pos bytes ≡ s.begin_pos + inc =
      omega (arith, r.sum, r.room, v.sized, v.order) in
    record {
      good = true;
      after = record s { end_pos = add32 s.end_pos bytes };
      packets = [];
      rest = stream inc s;
      result = e;
      frames = partial h;
      same = (refl, refl);
      place = λ _. omega arith;
      kept = λ _.
          ap (λ k. take k (drop s.begin_pos s.buf)) {x = add32 s.end_pos bytes - s.begin_pos}
            (omega (arith, last));
      valid = record {
        storage = v.storage;
        sized = v.sized;
        order = omega (arith, last);
        fits = omega (arith, r.room, last);
      };
    }

-- One packet more.
module _ (bytes inc : ℕ) (s : RecvIo) (r : Ready bytes inc s) (long : header_size ≤ inc)
    (right : check (packet_at s) ≡ true) (full : (packet_at s).size ≤ inc) where
  abbrev n : ℕ
  n = (packet_at s).size

  abbrev passed : RecvIo
  passed = advance n s

  begin-passed : passed.begin_pos ≡ s.begin_pos + n
  begin-passed = omega (arith, r.room, r.valid.sized, full)

  rest_stream :
      stream (inc' bytes inc s r long right full) passed
      ≡ take (inc - n) (drop n (drop s.begin_pos s.buf))
  rest_stream =
      (λ i. take ((left bytes inc s r long right full).0 i) (drop (begin-passed i) s.buf))
      ∙ ap (take (inc - n)) (sym (drop-drop s.begin_pos n (s.begin_pos + n) s.buf refl))

  passed-Ready :
      Ready (bytes' bytes inc s r long right full) (inc' bytes inc s r long right full) passed
  passed-Ready =
      let l = left bytes inc s r long right full in
      record {
        valid = record {
          storage = r.valid.storage;
          sized = r.valid.sized;
          order = omega arith;
          fits = omega (arith, begin-passed, r.room, full);
        };
        sum = omega (arith, l);
        room = omega (arith, begin-passed, l, r.room, full);
        spent = λ _. refl;
        held = inl (
            omega (
              arith,
              length-take (passed.end_pos - passed.begin_pos) (drop passed.begin_pos s.buf),
            ));
      }

  next-Passed :
      {o : Option (Bool × RecvIo)}
      → Passed (stream (inc' bytes inc s r long right full) passed) passed o
      → Passed (stream inc s) s o
  unfolding flatten
  next-Passed c =
      let m = drop s.begin_pos s.buf in
      let here = come bytes inc s r long in
      record {
        good = c.good;
        after = c.after;
        packets = take n m ∷ c.packets;
        rest = c.rest;
        result = c.result;
        frames =
            next (take n m) (take (inc - n) (drop n m)) (first-IsPacket m inc here long right full)
              (first-split m inc here long right full)
              (subst (λ x. Frames x c.packets c.rest c.good) rest_stream c.frames);
        same = c.same;
        place = λ g. omega (
          arith,
          c.place g,
          begin-passed,
          length-append (take n m) (flatten c.packets),
          length-take n m,
          here,
          full,
        );
        kept = c.kept;
        valid = c.valid;
      }

done-Passed :
    (inc : ℕ) (s : RecvIo) {r : Option (Bool × RecvIo)}
    → Ready 0 inc s
    → r ≡ some (true, s)
    → Passed (stream inc s) s r
unfolding flatten
done-Passed inc s r e = record {
  good = true;
  after = s;
  packets = [];
  rest = stream inc s;
  result = e;
  frames = partial (inl (omega (arith, length-stream 0 inc s r, r.sum, r.spent)));
  same = (refl, refl);
  place = λ _. omega arith;
  kept = λ _.
      ap (λ k. take k (drop s.begin_pos s.buf)) {x = s.end_pos - s.begin_pos}
        (omega (arith, r.sum));
  valid = r.valid;
}

bad-Passed :
    (inc : ℕ) (s : RecvIo) {r : Option (Bool × RecvIo)}
    → IsValid s
    → IsBad (stream inc s)
    → r ≡ some (false, s)
    → Passed (stream inc s) s r
bad-Passed inc s v h e = record {
  good = false;
  after = s;
  packets = [];
  rest = stream inc s;
  result = e;
  frames = bad h;
  same = (refl, refl);
  place = λ f. cc f;
  kept = λ f. cc f;
  valid = v;
}

loop-Passed :
    (fuel bytes inc : ℕ) (s : RecvIo)
    → inc < fuel
    → Ready bytes inc s
    → Passed (stream inc s) s (job_loop fuel bytes inc s)
unfolding job_loop is_valid
loop-Passed zero bytes inc s h r = absurd (omega arith)
loop-Passed (suc fuel) bytes inc s h r = elim (Bool-cases (bytes == 0)) [
  | inl none_left ↦
      rw none_left (done-Passed inc s (subst (λ b. Ready b inc s) (==→eq bytes 0 none_left) r) refl)
  | inr more ↦ elim (Bool-cases (leb header_size inc)) [
    | inr short ↦
        rw (more, short)
          (stop-Passed bytes inc s r (inl (omega (tests, length-stream bytes inc s r))) refl)
    | inl long ↦
        let l = leb→le header_size inc long in
        let e = same_header bytes inc s r l in
        elim (Bool-cases (check (packet_at s))) [
          | inr wrong ↦
              rw (more, long, wrong)
                (bad-Passed inc s r.valid
                  (omega (arith, length-stream bytes inc s r), ap check (sym e) ∙ wrong) refl)
          | inl right ↦ elim (Bool-cases (ltb inc (packet_at s).size)) [
            | inl less ↦
                rw (more, long, right, less)
                  (stop-Passed bytes inc s r
                    (inr (
                      omega (arith, length-stream bytes inc s r),
                      ap check (sym e) ∙ right,
                      omega (tests, length-stream bytes inc s r, ap (λ v. v.size) e),
                    ))
                    refl)
            | inr full ↦
                let f = ltb→le inc (packet_at s).size full in
                rw (more, long, right, full)
                  (next-Passed bytes inc s r l right f (
                    loop-Passed fuel (bytes' bytes inc s r l right f) (inc' bytes inc s r l right f)
                      (passed bytes inc s r l right f)
                      (omega (
                        arith,
                        (left bytes inc s r l right f).0,
                        (sizes bytes inc s r l right f).0,
                      ))
                      (passed-Ready bytes inc s r l right f)))
          ]
        ]
  ]
]

pub completed_job-Passed :
    (bytes : ℕ) (s : RecvIo)
    → IsValid s
    → IsPartial (pending s)
    → 0 < bytes
    → s.end_pos + bytes ≤ s.size
    → Passed
        (take ((s.end_pos - s.begin_pos) + bytes) (drop s.begin_pos s.buf))
        s
        (completed_job bytes s)
unfolding completed_job
completed_job-Passed bytes s v h p f =
    let e : add32 (sub32 s.end_pos s.begin_pos) bytes ≡ (s.end_pos - s.begin_pos) + bytes =
      omega (arith, v.order, v.fits, v.sized) in
    rw e (
      loop-Passed _ bytes ((s.end_pos - s.begin_pos) + bytes) s (omega arith) (record {
        valid = v;
        sum = refl;
        room = omega (arith, v.order);
        spent = λ z. absurd (omega arith);
        held = h;
      }))

-- ===== src/Recv/Loop.antt =====
-- The loop of Completed cuts the stream as the specification says.
use network.Prelude.{
  ℕ, zero, suc, ◌≡◌, ◌≤◌, ◌<◌, ◌-◌, ◌∙◌, ap, sym, refl, subst, inl, inr, true, Bool, Option, [],
  ◌∷◌, ◌++◌, map, length, take, drop, arith, append_assoc, length-take, length-drop, Bool-cases,
  tests, ==→eq, leb→le, ltb→le, ltb, leb, ◌==◌, sub32,
}
use network.Packet.{check, view, header_size, max_size}
use network.Packet.Size.{check_bounds}
use network.Packet.Cipher.{decrypt}
use network.Recv.{RecvIo, completed_loop, on_message, packet_at, is_valid}
use network.Recv.Step.{
  view-take, partial-lt, s1, first-split, first-IsPacket, begin-step, end-step, messages-step,
  step-IsValid, buf-step,
}
use network.Recv.Frames.{Frames, next}
use network.Recv.Ends.{Cut, Ready, stream, length-stream, stop-Cut, done-Cut, bad-Cut}

module _ (bytes inc : ℕ) (s : RecvIo) (r : Ready bytes inc s) (long : header_size ≤ inc) where
  pub come : inc ≤ length (drop s.begin_pos s.buf)
  come = omega (arith, length-drop s.begin_pos s.buf, r.valid.storage, r.room)

  -- The header that the loop tests is the stream's.
  pub same_header : packet_at s ≡ view (stream inc s)
  same_header = view-take (drop s.begin_pos s.buf) inc long come

  module _ (right : check (packet_at s) ≡ true) (full : (packet_at s).size ≤ inc) where
    pub sizes : (header_size ≤ (packet_at s).size) × ((packet_at s).size ≤ max_size)
    sizes = let (_, a, b) = (check_bounds (packet_at s)).0 right in (a, b)

    pub fewer : s.end_pos - s.begin_pos < (packet_at s).size
    fewer =
        partial-lt (drop s.begin_pos s.buf) (s.end_pos - s.begin_pos) (omega (arith, come, r.sum))
          r.held sizes.0

    abbrev pub bytes' : ℕ
    bytes' = sub32 bytes (sub32 (packet_at s).size (sub32 s.end_pos s.begin_pos))

    abbrev pub inc' : ℕ
    inc' = sub32 inc (packet_at s).size

    pub left : (inc' ≡ inc - (packet_at s).size) × (bytes' ≡ inc - (packet_at s).size)
    left = omega (arith, r.room, r.sum, r.valid.sized, r.valid.order, r.valid.fits, fewer, sizes)

    abbrev next_state : RecvIo
    next_state = s1 s inc r.valid r.room long right full

    step-Ready : Ready bytes' inc' next_state
    unfolding on_message
    step-Ready =
        let b = begin-step s inc r.valid r.room long right full in
        let e = end-step s inc r.valid r.room long right full in
        record {
          valid = step-IsValid s inc r.valid r.room long right full;
          sum = omega (arith, left);
          room = omega (arith, b, left, r.room);
          spent = λ _. omega (arith, b, e);
          held = inl (
              omega (
                arith,
                length-take (next_state.end_pos - next_state.begin_pos)
                    (drop next_state.begin_pos next_state.buf),
                b,
                e,
              ));
        }

    continue-Cut :
        {o : Option (Bool × RecvIo)}
        → Cut (stream inc' next_state) next_state o
        → Cut (stream inc s) s o
    continue-Cut c =
        let m = drop s.begin_pos s.buf in
        let n = (packet_at s).size in
        let rest_stream : stream inc' next_state ≡ take (inc - n) (drop n m) =
          λ i. take (left.0 i) (buf-step s inc r.valid r.room long right full i) in
        record {
          good = c.good;
          after = c.after;
          packets = take n m ∷ c.packets;
          rest = c.rest;
          result = c.result;
          frames =
              next (take n m) (take (inc - n) (drop n m))
                (first-IsPacket m inc come long right full) (first-split m inc come long right full)
                (subst (λ x. Frames x c.packets c.rest c.good) rest_stream c.frames);
          messages =
              c.messages
              ∙ ap (λ l. l ++ map decrypt c.packets)
                  (messages-step s inc r.valid r.room long right full)
              ∙ append_assoc s.messages (decrypt (take n m) ∷ []) (map decrypt c.packets);
          kept = c.kept;
          valid = c.valid;
        }

pub loop-Cut :
    (fuel bytes inc : ℕ) (s : RecvIo)
    → inc < fuel
    → Ready bytes inc s
    → Cut (stream inc s) s (completed_loop fuel bytes inc s)
unfolding completed_loop is_valid
loop-Cut zero bytes inc s h r = absurd (omega arith)
loop-Cut (suc fuel) bytes inc s h r = elim (Bool-cases (bytes == 0)) [
  | inl none_left ↦
      rw none_left (done-Cut inc s (subst (λ b. Ready b inc s) (==→eq bytes 0 none_left) r) refl)
  | inr more ↦ elim (Bool-cases (leb header_size inc)) [
    | inr short ↦
        rw (more, short)
          (stop-Cut bytes inc s r (inl (omega (tests, length-stream bytes inc s r))) refl)
    | inl long ↦ elim (Bool-cases (check (packet_at s))) [
      | inr wrong ↦
          let l = leb→le header_size inc long in
          rw (more, long, wrong)
            (bad-Cut inc s r.valid
              (
                omega (arith, length-stream bytes inc s r),
                ap check (sym (same_header bytes inc s r l)) ∙ wrong,
              )
              refl)
      | inl right ↦ elim (Bool-cases (ltb inc (packet_at s).size)) [
        | inl less ↦
            let l = leb→le header_size inc long in
            let e = same_header bytes inc s r l in
            rw (more, long, right, less)
              (stop-Cut bytes inc s r
                (inr (
                  omega (arith, length-stream bytes inc s r),
                  ap check (sym e) ∙ right,
                  omega (tests, length-stream bytes inc s r, ap (λ v. v.size) e),
                ))
                refl)
        | inr full ↦
            let l = leb→le header_size inc long in
            let f = ltb→le inc (packet_at s).size full in
            rw (more, long, right, full)
              (continue-Cut bytes inc s r l right f (
                loop-Cut fuel (bytes' bytes inc s r l right f) (inc' bytes inc s r l right f)
                  (next_state bytes inc s r l right f)
                  (omega
                    (arith, (left bytes inc s r l right f).0, (sizes bytes inc s r l right f).0))
                  (step-Ready bytes inc s r l right f)))
      ]
    ]
  ]
]

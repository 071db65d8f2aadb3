-- ===== src/WsRecv/Loop.antt =====
-- The loop of HNetIoWsRecv::Completed on whole frames and the start of another.
use network.Prelude.{
  ℕ, zero, suc, ◌≡◌, ◌<◌, ◌+◌, ◌-◌, ◌∙◌, refl, ap, sym, subst, List, [], ◌∷◌, ◌++◌, length, take,
  drop, arith, length-append, drop-length_append, append_assoc, drop-take, drop-drop, ne→==, le→ltb,
  sub32,
}
use network.Ws.{ws_size}
use network.Ws.Client.{client_frame-Opened}
use network.WsRecv.{WsRecvIo, frame_at, ws_completed_loop, ws_advance, ws_is_valid, preprocess}
use network.WsRecv.Frame.{DataFrame, frame_bytes, length-frame_bytes}
use network.WsRecv.Turn.{IsFrame, Handled, preprocess-Handled, told_by, IsPiece}
use network.WsRecv.Kept.{
  length-here, split_here, piece-HandedOn, frames_bytes, AllFrames, told_by_all, Within, HandedOn,
  Ready, le2, ws_check-true,
}

-- The first of the frames that have come.
module _ (bytes inc : ℕ) (s : WsRecvIo) (f : DataFrame) (y : List ℕ)
    (r : Ready bytes inc s (frame_bytes f ++ y)) (k : IsFrame f)
    (within : s.io.end_pos - s.io.begin_pos < length (frame_bytes f)) where
  abbrev n : ℕ
  n = length (frame_bytes f)

  abbrev t : WsRecvIo
  t = (preprocess s).1

  abbrev behind_frame : List ℕ
  behind_frame = y ++ drop inc (frame_at s)

  first_here : frame_at s ≡ frame_bytes f ++ behind_frame
  first_here =
      split_here bytes inc s (frame_bytes f ++ y) r
      ∙ append_assoc (frame_bytes f) y (drop inc (frame_at s))

  handled : Handled f s (preprocess s).0 t
  handled =
      preprocess-Handled f k behind_frame s first_here (omega (arith, r.valid.storage, r.room))

  enough : n + length y ≡ inc
  enough = sym (length-append (frame_bytes f) y) ∙ length-here bytes inc s (frame_bytes f ++ y) r

  abbrev next : WsRecvIo
  next = ws_advance (preprocess s).0 t

  next_begin : next.io.begin_pos ≡ s.io.begin_pos + n
  next_begin = omega (arith, handled.begins, handled.answers, r.room, enough, r.valid.sized)

  bytes_left : sub32 bytes (sub32 (preprocess s).0 (sub32 t.io.end_pos t.io.begin_pos)) ≡ inc - n
  bytes_left = omega (
    arith, handled.begins, handled.ends, handled.answers, r.sum, r.room, r.valid.order,
    r.valid.sized, enough, within,
  )

  inc_left : sub32 inc (preprocess s).0 ≡ inc - n
  inc_left = omega (arith, handled.answers, enough, r.room, r.valid.sized)

  next-Ready : Ready (inc - n) (inc - n) next y
  next-Ready = record {
    valid = record {
      storage = handled.storage ∙ r.valid.storage ∙ sym handled.size_kept;
      sized = handled.size_kept ∙ r.valid.sized;
      order = omega arith;
      fits = omega (arith, next_begin, r.room, enough, handled.size_kept);
    };
    sum = omega arith;
    room = omega (arith, next_begin, r.room, enough, handled.size_kept);
    here =
        ap (λ b. take (inc - n) (drop b next.io.buf)) {y = t.io.begin_pos + n}
          (omega (arith, next_begin, handled.begins))
        ∙ ap (take (inc - n)) (sym (drop-drop t.io.begin_pos n (t.io.begin_pos + n) t.io.buf refl))
        ∙ ap (take (inc - n)) handled.behind_eq
        ∙ sym (drop-take n inc (frame_at s))
        ∙ ap (drop n) r.here
        ∙ drop-length_append (frame_bytes f) y;
  }

  size_here : ws_size (frame_at s) ≡ n
  size_here =
      ap ws_size first_here
      ∙ (client_frame-Opened f.head f.j f.k f.l f.q f.body behind_frame k.small).size_eq

  -- A turn of the loop deals with the frame.
  turn :
      (fuel : ℕ)
      → ws_completed_loop (suc fuel) bytes inc s ≡ ws_completed_loop fuel (inc - n) (inc - n) next
  unfolding ws_completed_loop ws_is_valid
  turn fuel =
      let least = length-frame_bytes f in
      rw
        (
          ne→== bytes 0 (omega (arith, least, r.sum, enough, within)),
          le2 inc (omega (arith, least, enough)),
          ws_check-true (frame_at s) (omega (arith, size_here, least))
              (omega (arith, size_here, k.fits)),
          le→ltb inc (ws_size (frame_at s)) (omega (arith, size_here, enough)),
          ne→== (preprocess s).0 0 (omega (arith, handled.answers, least)),
        )
        (λ i. ws_completed_loop fuel (bytes_left i) (inc_left i) next)

none_held : (fs : List DataFrame) (n : ℕ) → n ≡ 0 → Within n fs
none_held [] n e = tt
none_held (f ∷ fs) n e = omega (arith, e, length-frame_bytes f)

pub loop-HandedOn :
    (fs : List DataFrame) (fuel bytes inc : ℕ) (s : WsRecvIo) (x : List ℕ)
    → AllFrames fs
    → IsPiece x
    → Ready bytes inc s (frames_bytes fs ++ x)
    → Within (s.io.end_pos - s.io.begin_pos) fs
    → inc < fuel
    → HandedOn s fs x (ws_completed_loop fuel bytes inc s)
loop-HandedOn fs zero bytes inc s x a p r w h = absurd (omega (arith, h))
loop-HandedOn [] (suc fuel) bytes inc s x a p r w h = piece-HandedOn bytes inc s x r fuel p
loop-HandedOn (f ∷ fs) (suc fuel) bytes inc s x (k, a) p r w h =
    let y = frames_bytes fs ++ x in
    let r' = subst (Ready bytes inc s) (append_assoc (frame_bytes f) (frames_bytes fs) x) r in
    let g = handled bytes inc s f y r' k w in
    let s' = next bytes inc s f y r' k w in
    let c =
      loop-HandedOn fs fuel (inc - length (frame_bytes f)) (inc - length (frame_bytes f)) s' x a p
        (next-Ready bytes inc s f y r' k w)
        (none_held fs (s'.io.end_pos - s'.io.begin_pos) (omega arith))
        (omega (arith, h, length-frame_bytes f, enough bytes inc s f y r' k w)) in
    record {
      after = c.after;
      result = turn bytes inc s f y r' k w fuel ∙ c.result;
      messages =
          c.messages
          ∙ ap (λ l. l ++ told_by_all fs) g.messages
          ∙ append_assoc s.io.messages (told_by f) (told_by_all fs);
      pongs = omega (arith, c.pongs, g.pongs);
      kept = c.kept;
      place = omega (
        arith,
        c.place,
        next_begin bytes inc s f y r' k w,
        length-append (frame_bytes f) (frames_bytes fs),
      );
      valid = c.valid;
    }

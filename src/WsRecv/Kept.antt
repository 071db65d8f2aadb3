-- ===== src/WsRecv/Kept.antt =====
-- What the loop of HNetIoWsRecv::Completed keeps: the start of a frame.
use network.Prelude.{
  ℕ, suc, ◌≡◌, ◌≤◌, ◌<◌, ◌+◌, ◌-◌, ◌∙◌, refl, ap, sym, inl, inr, List, [], ◌∷◌, ◌++◌, length, take,
  drop, arith, length-append, length-take, length-drop, take-append-drop, append-nil, le→ltb,
  lt→ltb, true, Bool, Option, some, add32, leb, Bool-cases, ◌==◌, ==→eq, tests,
}
use network.Packet.{max_size}
use network.Recv.{IsValid}
use network.Recv.Space.{pending}
use network.Ws.{ws_size, ws_check}
use network.WsRecv.{WsRecvIo, frame_at, ws_completed_loop, ws_is_valid, keep_bytes}
use network.WsRecv.Frame.{DataFrame, frame_bytes}
use network.WsRecv.Turn.{IsFrame, told_by, pings_in, IsPiece, piece_size}

abbrev pub frames_bytes : List DataFrame → List ℕ
frames_bytes [] = []
frames_bytes (f ∷ fs) = frame_bytes f ++ frames_bytes fs

abbrev pub AllFrames : List DataFrame → Type 0
AllFrames [] = Unit {0}
AllFrames (f ∷ fs) = IsFrame f × AllFrames fs

-- What frames hand on, and how many pings are among them.
abbrev pub told_by_all : List DataFrame → List (List ℕ)
told_by_all [] = []
told_by_all (f ∷ fs) = told_by f ++ told_by_all fs

abbrev pub pings_in_all : List DataFrame → ℕ
pings_in_all [] = 0
pings_in_all (f ∷ fs) = pings_in f + pings_in_all fs

-- So many bytes are within the first of the frames.
abbrev pub Within : ℕ → List DataFrame → Type 0
Within n [] = Unit {0}
Within n (f ∷ fs) = n < length (frame_bytes f)

-- All frames have been handed on, and the piece is kept.
pub record HandedOn (s : WsRecvIo) (fs : List DataFrame) (x : List ℕ) (r : Option (Bool × WsRecvIo))
    : Type 0 where
  pub after : WsRecvIo
  pub result : r ≡ some (true, after)
  pub messages : after.io.messages ≡ s.io.messages ++ told_by_all fs
  pub pongs : after.pongs ≡ s.pongs + pings_in_all fs
  pub kept : pending after.io ≡ x
  pub place : after.io.begin_pos ≡ s.io.begin_pos + length (frames_bytes fs)
  pub valid : IsValid after.io

-- What the loop needs of its state, with the bytes `x` behind `_begin` of which `bytes` are new.
pub record Ready (bytes inc : ℕ) (s : WsRecvIo) (x : List ℕ) : Type 0 where
  pub valid : IsValid s.io
  pub sum : inc ≡ (s.io.end_pos - s.io.begin_pos) + bytes
  pub room : s.io.begin_pos + inc ≤ s.io.size
  pub here : take inc (frame_at s) ≡ x

pub le2 : (a : ℕ) → 2 ≤ a → leb 2 a ≡ true
le2 a h = ground arith

pub ws_check-true : (m : List ℕ) → 2 ≤ ws_size m → ws_size m ≤ max_size → ws_check m ≡ true
unfolding ws_check
ws_check-true m l h = rw (le→ltb (ws_size m) 2 l, le→ltb max_size (ws_size m) h) refl

module _ (bytes inc : ℕ) (s : WsRecvIo) (x : List ℕ) (r : Ready bytes inc s x) where
  pub length-here : length x ≡ inc
  length-here = omega (
    arith,
    ap length r.here,
    length-take inc (frame_at s),
    length-drop s.io.begin_pos s.io.buf,
    r.valid.storage,
    r.room,
  )

  pub split_here : frame_at s ≡ x ++ drop inc (frame_at s)
  split_here = sym (take-append-drop inc (frame_at s)) ∙ ap (λ l. l ++ drop inc (frame_at s)) r.here

  -- The loop ends: all that has come is kept.
  stop-HandedOn :
      (t : WsRecvIo) {q : Option (Bool × WsRecvIo)}
      → t ≡ record s { io = record s.io { end_pos = s.io.begin_pos + inc } }
      → q ≡ some (true, t)
      → HandedOn s [] x q
  stop-HandedOn t e q =
      let u : WsRecvIo = record s { io = record s.io { end_pos = s.io.begin_pos + inc } } in
      record {
        after = u;
        result = q ∙ ap (λ w. some (true, w)) e;
        messages = sym (append-nil s.io.messages);
        pongs = omega arith;
        kept =
            ap (λ n. take n (frame_at s)) {x = s.io.begin_pos + inc - s.io.begin_pos} {y = inc}
              (omega arith)
            ∙ r.here;
        place = omega arith;
        valid = record {
          storage = r.valid.storage;
          sized = r.valid.sized;
          order = omega arith;
          fits = r.room;
        };
      }

  ended : bytes ≡ 0 → s ≡ record s { io = record s.io { end_pos = s.io.begin_pos + inc } }
  ended z =
      ap (λ n. record s { io = record s.io { end_pos = n } }) {x = s.io.end_pos}
        {y = s.io.begin_pos + inc} (omega (arith, r.sum, r.valid.order))

  grown : keep_bytes bytes s ≡ record s { io = record s.io { end_pos = s.io.begin_pos + inc } }
  grown =
      ap (λ n. record s { io = record s.io { end_pos = n } }) {x = add32 s.io.end_pos bytes}
        {y = s.io.begin_pos + inc} (omega (arith, r.sum, r.valid.order, r.valid.sized, r.room))

  piece-long :
      (p : IsPiece x) → 2 ≤ inc → (ws_check (frame_at s) ≡ true) × (inc < ws_size (frame_at s))
  piece-long p l = elim p.header [
    | inl h ↦ absurd (omega (arith, length-here))
    | inr h ↦
        let size : ws_size (frame_at s) ≡ length (frame_bytes p.frame) =
          ap ws_size split_here ∙ piece_size x (drop inc (frame_at s)) p h in
        let more : inc < length (frame_bytes p.frame) =
          omega (arith, ap length p.splits, length-append x p.others, p.more, length-here) in
        (
          ws_check-true (frame_at s) (omega (arith, size, more))
              (omega (arith, size, p.is_frame.fits)),
          omega (arith, size, more),
        )
  ]

  pub piece-HandedOn :
      (fuel : ℕ) → IsPiece x → HandedOn s [] x (ws_completed_loop (suc fuel) bytes inc s)
  unfolding ws_completed_loop ws_is_valid
  piece-HandedOn fuel p = elim (Bool-cases (bytes == 0)) [
    | inl z ↦ stop-HandedOn s (ended (==→eq _ _ z)) (rw z refl)
    | inr z ↦ elim (Bool-cases (leb 2 inc)) [
      | inr l ↦ stop-HandedOn (keep_bytes bytes s) grown (rw (z, l) refl)
      | inl l ↦
          let (fine, more) = piece-long p (omega (tests, l)) in
          stop-HandedOn (keep_bytes bytes s) grown
            (rw (z, l, fine, lt→ltb inc (ws_size (frame_at s)) more) refl)
    ]
  ]

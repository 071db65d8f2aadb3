-- ===== src/WsRecv/Turn.antt =====
-- One frame of a client in the buffer, with data, a ping or a pong: what `_Preprocess` makes of it.
use network.Prelude.{
  ℕ, ◌≡◌, ◌⊎◌, ◌≢◌, ◌≤◌, ◌<◌, ◌+◌, ◌%◌, ◌∙◌, refl, ap, sym, List, [], ◌∷◌, ◌++◌, length, take, drop,
  arith, length-append, take-append, take-append-drop, take-length_append, drop-length_append,
  append_assoc, append-nil, ne→==, ◌==◌, if◌then◌else◌, Bool-cases, inl, inr, ==→eq, ==→ne, ◌||◌,
}
use network.Packet.{max_size}
use network.Ws.{ws_size, opcode}
use network.Ws.Client.{
  client_frame-Opened, ws_size-header, masked_length, key_bytes, mask, length-mask,
}
use network.WsRecv.{WsRecvIo, preprocess, frame_at, pong}
use network.WsRecv.Frame.{
  DataFrame, IsData, frame_bytes, packet_of, behind, told, told_frame, told_messages, told_length,
  preprocess-told,
}

-- Not a close, and no longer than the buffer.
pub record IsFrame (f : DataFrame) : Type 0 where
  pub no_close : f.head % 16 ≢ 8
  pub small : length f.body < 65528
  pub fits : length (frame_bytes f) ≤ max_size

-- A ping or a pong carries no message.
abbrev pub told_by : DataFrame → List (List ℕ)
told_by f = if f.head % 16 == 9 || f.head % 16 == 10 then [] else packet_of f ∷ []

abbrev pub pings_in : DataFrame → ℕ
pings_in f = if f.head % 16 == 9 then 1 else 0

-- What `_Preprocess` leaves: the frame is dealt with, and what lies behind it is as it was.
pub record Handled (f : DataFrame) (s : WsRecvIo) (n : ℕ) (t : WsRecvIo) : Type 0 where
  pub answers : n ≡ length (frame_bytes f)
  pub begins : t.io.begin_pos ≡ s.io.begin_pos
  pub ends : t.io.end_pos ≡ s.io.end_pos
  pub size_kept : t.io.size ≡ s.io.size
  pub storage : length t.io.buf ≡ length s.io.buf
  pub behind_eq :
      drop (length (frame_bytes f)) (frame_at t) ≡ drop (length (frame_bytes f)) (frame_at s)
  pub messages : t.io.messages ≡ s.io.messages ++ told_by f
  pub pongs : t.pongs ≡ s.pongs + pings_in f

-- Of an opcode that is neither 9 nor 10, and of one that is.
pub told_by-data :
    (f : DataFrame) → f.head % 16 ≢ 9 → f.head % 16 ≢ 10 → told_by f ≡ packet_of f ∷ []
told_by-data f p q = rw (ne→== (f.head % 16) 9 p, ne→== (f.head % 16) 10 q) refl

told_by-control : (f : DataFrame) → (f.head % 16 ≡ 9) ⊎ (f.head % 16 ≡ 10) → told_by f ≡ []
told_by-control f (inl p) = rw p refl
told_by-control f (inr p) = rw p refl

pub pings_in-none : (f : DataFrame) → f.head % 16 ≢ 9 → pings_in f ≡ 0
pings_in-none f p = rw (ne→== (f.head % 16) 9 p) refl

pings_in-one : (f : DataFrame) → f.head % 16 ≡ 9 → pings_in f ≡ 1
pings_in-one f p = rw p refl

module _ (f : DataFrame) (k : IsFrame f) (rest : List ℕ) (s : WsRecvIo)
    (here : frame_at s ≡ frame_bytes f ++ rest) (fits : s.io.begin_pos ≤ length s.io.buf) where
  code : opcode (frame_at s) ≡ f.head % 16
  code = ap opcode here

  size_here : ws_size (frame_at s) ≡ length (frame_bytes f)
  size_here =
      ap ws_size here ∙ (client_frame-Opened f.head f.j f.k f.l f.q f.body rest k.small).size_eq

  data-Handled : f.head % 16 ≢ 9 → f.head % 16 ≢ 10 → Handled f s (preprocess s).0 (preprocess s).1
  data-Handled p q =
      let d : IsData f = record {
        no_close = k.no_close;
        no_ping = p;
        no_pong = q;
        small = k.small;
      } in
      let t = told f d rest s here fits in
      rw (preprocess-told f d rest s here fits) (record {
        answers = refl;
        begins = refl;
        ends = refl;
        size_kept = refl;
        storage = told_length f d rest s here fits;
        behind_eq =
            ap (drop (length (frame_bytes f))) (told_frame f d rest s here fits)
            ∙ behind f d rest
            ∙ sym (drop-length_append (frame_bytes f) rest)
            ∙ ap (drop (length (frame_bytes f))) (sym here);
        messages =
            told_messages f d rest s here fits
            ∙ ap (λ l. s.io.messages ++ l) (sym (told_by-data f p q));
        pongs = omega (arith, pings_in-none f p);
      })

  quiet : told_by f ≡ [] → s.io.messages ≡ s.io.messages ++ told_by f
  quiet e = sym (append-nil s.io.messages) ∙ ap (λ l. s.io.messages ++ l) (sym e)

  preprocess-ping : f.head % 16 ≡ 9 → preprocess s ≡ (ws_size (frame_at s), pong s)
  unfolding preprocess
  preprocess-ping p = rw (code, p) refl

  preprocess-pong : f.head % 16 ≡ 10 → preprocess s ≡ (ws_size (frame_at s), s)
  unfolding preprocess
  preprocess-pong p = rw (code, p) refl

  ping-Handled : f.head % 16 ≡ 9 → Handled f s (preprocess s).0 (preprocess s).1
  ping-Handled p = rw (preprocess-ping p) (record {
    answers = size_here;
    begins = refl;
    ends = refl;
    size_kept = refl;
    storage = refl;
    behind_eq = refl;
    messages = quiet (told_by-control f (inl p));
    pongs = omega (arith, pings_in-one f p);
  })

  pong-Handled : f.head % 16 ≡ 10 → Handled f s (preprocess s).0 (preprocess s).1
  pong-Handled p = rw (preprocess-pong p) (record {
    answers = size_here;
    begins = refl;
    ends = refl;
    size_kept = refl;
    storage = refl;
    behind_eq = refl;
    messages = quiet (told_by-control f (inr p));
    pongs = omega (arith, pings_in-none f (λ e. absurd (omega (arith, e, p))));
  })

  pub preprocess-Handled : Handled f s (preprocess s).0 (preprocess s).1
  preprocess-Handled = elim (Bool-cases (f.head % 16 == 9)) [
    | inl p ↦ ping-Handled (==→eq _ _ p)
    | inr p ↦ elim (Bool-cases (f.head % 16 == 10)) [
      | inl q ↦ pong-Handled (==→eq _ _ q)
      | inr q ↦ data-Handled (==→ne _ _ p) (==→ne _ _ q)
    ]
  ]

-- The first byte and the length of a frame.
abbrev pub header_of : DataFrame → List ℕ
header_of f = f.head ∷ masked_length (length f.body)

-- The start of a frame that is not whole, and that does not end within the frame's length.
pub record IsPiece (x : List ℕ) : Type 0 where
  pub frame : DataFrame
  pub others : List ℕ
  pub is_frame : IsFrame frame
  pub splits : frame_bytes frame ≡ x ++ others
  pub more : 0 < length others
  pub header : (length x < 2) ⊎ (length (header_of frame) ≤ length x)

-- Where the length has come, Size is right whatever the buffer holds behind.
pub piece_size :
    (x rest : List ℕ) (p : IsPiece x)
    → length (header_of p.frame) ≤ length x
    → ws_size (x ++ rest) ≡ length (frame_bytes p.frame)
piece_size x rest p h =
    let f = p.frame in
    let tail = key_bytes f.j f.k f.l f.q ++ mask (key_bytes f.j f.k f.l f.q) 0 f.body in
    let start : take (length (header_of f)) x ≡ header_of f =
      sym (take-append (length (header_of f)) x p.others h)
      ∙ ap (take (length (header_of f))) (sym p.splits)
      ∙ take-length_append (header_of f) tail in
    let whole : x ++ rest ≡ header_of f ++ (drop (length (header_of f)) x ++ rest) =
      ap (λ l. l ++ rest)
        (sym (take-append-drop (length (header_of f)) x)
          ∙ ap (λ l. l ++ drop (length (header_of f)) x) start)
      ∙ append_assoc (header_of f) (drop (length (header_of f)) x) rest in
    ap ws_size whole
    ∙ ws_size-header f.head (length f.body) _ p.is_frame.small
    ∙ omega (
      arith,
      length-append (masked_length (length f.body)) tail,
      length-mask (key_bytes f.j f.k f.l f.q) 0 f.body,
    )

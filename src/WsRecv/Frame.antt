-- ===== src/WsRecv/Frame.antt =====
-- One masked data frame of a client in the buffer: what `_Preprocess` makes of it.
use network.Prelude.{
  ℕ, zero, suc, ◌≡◌, ◌≢◌, ◌≤◌, ◌<◌, ◌+◌, ◌-◌, ◌%◌, ◌∙◌, refl, ap, sym, List, [], ◌∷◌, ◌++◌, length,
  take, drop, arith, length-append, length-take, length-drop, length-blit, drop-drop,
  take-length_append, drop-length_append, le16, ne→==, take-append-drop, Bool-cases, inl, inr,
}
use network.Ws.{ws_size, ws_decrypt, data_size, opcode, to_packet, unmask, extend_bytes, is_mask}
use network.Ws.Client.{client_frame, key_bytes, Opened, client_frame-Opened, mask, masked_length}
use network.WsRecv.{WsRecvIo, preprocess, frame_at, on_ws_message}

-- A frame with data, as RFC 6455 has clients send it.
pub record DataFrame : Type 0 where
  pub head : ℕ
  pub j : ℕ
  pub k : ℕ
  pub l : ℕ
  pub q : ℕ
  pub body : List ℕ

abbrev pub frame_bytes : DataFrame → List ℕ
frame_bytes f = client_frame f.head (key_bytes f.j f.k f.l f.q) f.body

pub length-frame_bytes : (f : DataFrame) → 5 ≤ length (frame_bytes f)
length-frame_bytes f = omega (
  arith,
  length-append (masked_length (length f.body))
      (key_bytes f.j f.k f.l f.q ++ mask (key_bytes f.j f.k f.l f.q) 0 f.body),
)

-- Neither a close, nor a ping, nor a pong, and short enough.
pub record IsData (f : DataFrame) : Type 0 where
  pub no_close : f.head % 16 ≢ 8
  pub no_ping : f.head % 16 ≢ 9
  pub no_pong : f.head % 16 ≢ 10
  pub small : length f.body < 65528

-- The packet that is made of it: the frame's size, and the data.
abbrev pub packet_of : DataFrame → List ℕ
packet_of f = le16 (length (frame_bytes f)) ++ f.body

length-unmask : (key : List ℕ) (i n : ℕ) (xs : List ℕ) → length (unmask key i n xs) ≡ length xs
unfolding unmask
length-unmask key i zero xs = refl
length-unmask key i (suc n) [] = refl
length-unmask key i (suc n) (x ∷ xs) = ap suc (length-unmask key (i + 1) n xs)

length-take-drop : (n : ℕ) (m : List ℕ) → length (take n m) + length (drop n m) ≡ length m
length-take-drop n m = sym (length-append (take n m) (drop n m)) ∙ ap length (take-append-drop n m)

length-ws_decrypt : (m : List ℕ) → length (ws_decrypt m).1 ≡ length m
unfolding ws_decrypt
length-ws_decrypt m = elim (Bool-cases (is_mask m)) [
  | inl y ↦
      let at : ℕ = 2 + extend_bytes m in
      let key = take 4 (drop at m) in
      let body = drop (at + 4) m in
      rw y (
        length-append (take (at + 4) m) (unmask key 0 (data_size m) body)
        ∙ ap (λ n. length (take (at + 4) m) + n) (length-unmask key 0 (data_size m) body)
        ∙ length-take-drop (at + 4) m)
  | inr n ↦ rw n refl
]

length-to_packet : (m : List ℕ) → length (to_packet m).1 ≡ length m
unfolding to_packet
length-to_packet m =
    length-blit (ws_decrypt m).1 ((ws_decrypt m).0 - 2) (le16 (ws_size (ws_decrypt m).1))
    ∙ length-ws_decrypt m

-- The frame's memory after ToPacket: the packet, and behind the frame what was there.
module _ (f : DataFrame) (d : IsData f) (rest : List ℕ) where
  abbrev pub opened : Opened (frame_bytes f ++ rest) f.body rest (length (frame_bytes f))
  opened = client_frame-Opened f.head f.j f.k f.l f.q f.body rest d.small

  abbrev pub memory : List ℕ
  memory = frame_bytes f ++ rest

  packet_place : (to_packet memory).0 + (2 + length f.body) ≡ length (frame_bytes f)
  packet_place = omega (
    arith,
    ap length opened.packet_eq,
    length-drop (to_packet memory).0 (to_packet memory).1,
    length-to_packet memory,
    length-append (frame_bytes f) rest,
    length-append f.body rest,
  )

  pub behind : drop (length (frame_bytes f)) (to_packet memory).1 ≡ rest
  behind =
      sym (
        drop-drop (to_packet memory).0 (2 + length f.body) (length (frame_bytes f))
          (to_packet memory).1 (sym packet_place))
      ∙ ap (drop (2 + length f.body)) opened.packet_eq
      ∙ ap (λ n. drop n (packet_of f ++ rest)) {x = 2 + length f.body} {y = length (packet_of f)}
          (omega arith)
      ∙ drop-length_append (packet_of f) rest

  packet_eq_of :
      take (2 + data_size memory) (drop (to_packet memory).0 (to_packet memory).1) ≡ packet_of f
  packet_eq_of =
      (λ i. take (2 + opened.data_size_eq i) (opened.packet_eq i))
      ∙ ap (λ n. take n (packet_of f ++ rest)) {x = 2 + length f.body} {y = length (packet_of f)}
          (omega arith)
      ∙ take-length_append (packet_of f) rest

  -- The session's buffer has the frame at `_begin`.
  module _ (s : WsRecvIo) (here : frame_at s ≡ memory)
      (fits : s.io.begin_pos ≤ length s.io.buf) where
    abbrev pub told : WsRecvIo
    told = on_ws_message s

    length-kept : length (take s.io.begin_pos s.io.buf) ≡ s.io.begin_pos
    length-kept = omega (arith, fits, length-take s.io.begin_pos s.io.buf)

    pub told_frame : frame_at told ≡ (to_packet memory).1
    told_frame =
        ap (λ n. drop n told.io.buf) (sym length-kept)
        ∙ drop-length_append (take s.io.begin_pos s.io.buf) (to_packet (frame_at s)).1
        ∙ ap (λ m. (to_packet m).1) here

    pub told_messages : told.io.messages ≡ s.io.messages ++ packet_of f ∷ []
    told_messages =
        (λ i.
          s.io.messages
          ++ take (2 + data_size (here i)) (drop (to_packet (here i)).0 (to_packet (here i)).1)
            ∷ [])
        ∙ ap (λ p. s.io.messages ++ p ∷ []) packet_eq_of

    pub told_length : length told.io.buf ≡ length s.io.buf
    told_length = omega (
      arith,
      length-append (take s.io.begin_pos s.io.buf) (to_packet (frame_at s)).1,
      length-to_packet (frame_at s),
      length-take-drop s.io.begin_pos s.io.buf,
    )

    pub preprocess-told : preprocess s ≡ (length (frame_bytes f), told)
    unfolding preprocess
    preprocess-told =
        let code : opcode (frame_at s) ≡ f.head % 16 = ap opcode here in
        rw
          (
            ne→== (opcode (frame_at s)) 8 (λ e. d.no_close (sym code ∙ e)),
            ne→== (opcode (frame_at s)) 9 (λ e. d.no_ping (sym code ∙ e)),
            ne→== (opcode (frame_at s)) 10 (λ e. d.no_pong (sym code ∙ e)),
          )
          (λ i. ((ap ws_size told_frame ∙ opened.size_after) i, told))

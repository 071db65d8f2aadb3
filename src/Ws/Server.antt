-- ===== src/Ws/Server.antt =====
-- HNetWsPacket::operator<: the frame that a server sends.
use network.Prelude.{
  ◌⊎◌, ℕ, ◌≡◌, ◌≤◌, ◌+◌, ◌-◌, ◌∙◌, ap, sym, refl, true, false, none, some, ◌++◌, length, take, drop,
  blit, u16_at, Bool-cases, inl, inr, sub16,
}
use network.Ws.{
  WsSend, sent_bytes, head_size, max_header_size, ws_initialize, ws_packet_check, ws_to_send,
}
use network.Ws.Frame.{IsFrame, first_frame, first_frame-IsFrame}

abbrev made : WsSend → WsSend
made w =
    let n = sub16 (u16_at w.block 8) 2 in
    record {
      block = blit w.block (max_header_size - head_size n) (ws_initialize n);
      buf = some (max_header_size - head_size n);
      len = head_size n + n;
    }

ws_to_send-set :
    (w : WsSend) (at : ℕ)
    → w.buf ≡ some at
    → ws_packet_check (u16_at w.block 8) (u16_at w.block 10) ≡ true
    → ws_to_send w ≡ some w
unfolding ws_to_send
ws_to_send-set w at e c =
    rw (ws_to_send, c) (ap (λ b. elim b [ some old ↦ some w | none ↦ some (made w) ]) e)

ws_to_send-refused :
    (w : WsSend)
    → ws_packet_check (u16_at w.block 8) (u16_at w.block 10) ≡ false
    → ws_to_send w ≡ none
unfolding ws_to_send
ws_to_send-refused w c = rw (ws_to_send, c) refl

ws_to_send-made :
    (w : WsSend)
    → w.buf ≡ none
    → ws_packet_check (u16_at w.block 8) (u16_at w.block 10) ≡ true
    → ws_to_send w ≡ some (made w)
unfolding ws_to_send
ws_to_send-made w e c = rw (ws_to_send, c, e) refl

first_frame-made :
    (w : WsSend)
    → ws_packet_check (u16_at w.block 8) (u16_at w.block 10) ≡ true
    → first_frame w.block ≡ some (sent_bytes (made w))
unfolding first_frame
first_frame-made w c = rw (first_frame, c) refl

-- The first call.
ws_to_send-first :
    (w r : WsSend)
    → w.buf ≡ none
    → ws_to_send w ≡ some r
    → (at : ℕ) × (r.buf ≡ some at) × (first_frame w.block ≡ some (sent_bytes r))
ws_to_send-first w r e h =
    elim (Bool-cases (ws_packet_check (u16_at w.block 8) (u16_at w.block 10))) [
      | inl c ↦
          let same : made w ≡ r = cc (h, ws_to_send-made w e c) in
          (
            max_header_size - head_size (sub16 (u16_at w.block 8) 2),
            ap (λ q. q.buf) (sym same),
            first_frame-made w c ∙ ap (λ q. some (sent_bytes q)) same,
          )
      | inr c ↦ cc (h, ws_to_send-refused w c)
    ]

-- Where `buf` is set already, operator< changes nothing.
ws_to_send-again :
    (w : WsSend) (at : ℕ) → w.buf ≡ some at → (ws_to_send w ≡ some w) ⊎ (ws_to_send w ≡ none)
ws_to_send-again w at e =
    elim (Bool-cases (ws_packet_check (u16_at w.block 8) (u16_at w.block 10))) [
      | inl c ↦ inl (ws_to_send-set w at e c)
      | inr c ↦ inr (ws_to_send-refused w c)
    ]

-- If `buf` of the WsaSend is not set yet and the packet lies whole in its memory block, and
-- HNetWsPacket::operator< answers, then what is to be sent is the header that Initialize makes for
-- `_size` - 2 and then as many bytes from the type on; it is one binary frame without a mask,
-- whose Size is the number of bytes sent and whose DataSize is `_size` - 2. A further call, where
-- `buf` is set, makes no frame: it leaves all as it is, or answers NULL because of the overwritten
-- `_size`.
pub ws_to_send-IsFrame :
    (w r : WsSend)
    → w.buf ≡ none
    → 8 + u16_at w.block 8 ≤ length w.block
    → ws_to_send w ≡ some r
    → let n = u16_at w.block 8 - 2 in
      (sent_bytes r ≡ ws_initialize n ++ take n (drop 10 w.block))
      × IsFrame (sent_bytes r) n
      × ((ws_to_send r ≡ some r) ⊎ (ws_to_send r ≡ none))
ws_to_send-IsFrame w r e l h =
    let (at, set, bytes) = ws_to_send-first w r e h in
    let (b, frame) = first_frame-IsFrame w.block (sent_bytes r) l bytes in
    (b, frame, ws_to_send-again r at set)

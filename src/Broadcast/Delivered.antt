-- ===== src/Broadcast/Delivered.antt =====
-- Whom a packet goes to, and what it goes as.
use network.Prelude.{
  ℕ, zero, suc, ◌≡◌, ◌<◌, ◌≤◌, ◌∙◌, u16_at, append-nil, ap, sym, refl, inl, inr, false, Option,
  some, List, [], ◌∷◌, length, arith, Bool-cases,
}
use network.Packet.{max_size, header_size}
use network.Packet.Cipher.{WsaSend, encrypt, decrypt, decrypt-encrypt, not_encrypt, length-scramble}
use network.Send.{SendIo}
use network.Sessions.{find_session}
use network.Sessions.Slots.{Connects}
use network.Sessions.Slots
use network.Sessions.Lookup.{HasId, find_session_iff}
use network.Broadcast.{Net, send_slot, send_loop, send_all, send_to}
use network.Broadcast.Rings.{
  no_slot, slot_empty, slot_held, Takes, AllTake, AllValid, send_ring-Takes, send_slot-at,
  send_loop-AllTake,
}

-- A packet is encrypted once, and no longer for it.
encrypt-once : (w : WsaSend) → encrypt (encrypt w) ≡ encrypt w
unfolding encrypt not_encrypt
encrypt-once w = elim (Bool-cases w.encrypted) [ inl e ↦ rw e refl | inr e ↦ rw e refl ]

length-encrypt : (w : WsaSend) → length (encrypt w).bytes ≡ length w.bytes
unfolding encrypt not_encrypt
length-encrypt w = elim (Bool-cases w.encrypted) [
  | inl e ↦ rw e refl
  | inr e ↦ rw e (length-scramble w.bytes _ _)
]

AllTake-AllValid :
    {buf : List ℕ} {cs : List (Option ℕ)} {rs rs' : List SendIo}
    → AllTake buf cs rs rs'
    → AllValid rs
    → AllValid rs' × (length rs' ≡ length rs)
AllTake-AllValid no_slot v = (v, refl)
AllTake-AllValid (slot_empty r a) v = let (w, e) = AllTake-AllValid a v.1 in ((v.0, w), ap suc e)
AllTake-AllValid (slot_held i t a) v =
    let (w, e) = AllTake-AllValid a v.1 in ((t.valid, w), ap suc e)

-- The ring of one slot takes the message, the others stay.
pub data OneTakes (buf : List ℕ) : ℕ → List SendIo → List SendIo → Type 0 where
  first_takes :
      {r r' : SendIo} (rs : List SendIo) → Takes buf r r' → OneTakes buf 0 (r ∷ rs) (r' ∷ rs)
  later_takes :
      {i : ℕ} {rs rs' : List SendIo} (r : SendIo)
      → OneTakes buf i rs rs'
      → OneTakes buf (suc i) (r ∷ rs) (r ∷ rs')

send_slot-later :
    (fuel : ℕ) (buf : List ℕ) (i : ℕ) (r : SendIo) (rs rs' : List SendIo)
    → send_slot fuel buf i rs ≡ some rs'
    → send_slot fuel buf (suc i) (r ∷ rs) ≡ some (r ∷ rs')
unfolding send_slot
send_slot-later fuel buf i r rs rs' e = rw (send_slot, e) refl

send_slot-OneTakes :
    (fuel : ℕ) (buf : List ℕ) (i : ℕ) (rs : List SendIo)
    → length buf < max_size
    → AllValid rs
    → i < length rs
    → (rs' : List SendIo) × (send_slot (suc (suc fuel)) buf i rs ≡ some rs') × OneTakes buf i rs rs'
send_slot-OneTakes fuel buf i [] h v l = absurd (omega arith)
send_slot-OneTakes fuel buf zero (r ∷ rs) h v l =
    let (r', run, takes) = send_ring-Takes fuel buf r v.0 h in
    (r' ∷ rs, send_slot-at (suc (suc fuel)) buf [] rs r r' run, first_takes rs takes)
send_slot-OneTakes fuel buf (suc i) (r ∷ rs) h v l =
    let (rs', run, one) = send_slot-OneTakes fuel buf i rs h v.1 (omega (arith, l)) in
    (r ∷ rs', send_slot-later (suc (suc fuel)) buf i r rs rs' run, later_takes r one)

send_all-run :
    (fuel : ℕ) (w : WsaSend) (s : Net) (rings : List SendIo)
    → send_loop fuel (encrypt w).bytes s.table.connected s.rings ≡ some rings
    → send_all fuel w s ≡ some (encrypt w, record s { rings = rings })
unfolding send_all
send_all-run fuel w s rings e = rw (send_all, e) refl

send_to-run :
    (fuel net_id i : ℕ) (w : WsaSend) (s : Net) (rings : List SendIo)
    → find_session s.table net_id ≡ some i
    → send_slot fuel (encrypt w).bytes i s.rings ≡ some rings
    → send_to fuel net_id w s ≡ some (encrypt w, record s { rings = rings })
unfolding send_to
send_to-run fuel net_id i w s rings f e = rw (send_to, f, e) refl

-- What two sends of one packet come to.
pub record SentTwice (fuel net_id i : ℕ) (w : WsaSend) (s : Net) : Type 0 where
  pub rings : List SendIo
  pub rings' : List SendIo
  pub to_all : send_all (suc (suc fuel)) w s ≡ some (encrypt w, record s { rings = rings })
  pub to_one :
      send_to (suc (suc fuel)) net_id (encrypt w) (record s { rings = rings })
      ≡ some (encrypt w, record s { rings = rings' })
  pub all_take : AllTake (encrypt w).bytes s.table.connected s.rings rings
  pub one_takes : OneTakes (encrypt w).bytes i rings rings'
  pub opened : decrypt (encrypt w).bytes ≡ w.bytes

-- In a valid table with a valid ring for each slot, send an unencrypted packet whose size field is
-- its length, from the header's size up to less than MAX_SIZE, with _SendAll, and the same packet
-- again with _Send to the net id of a session: both calls return; first the ring of every
-- connected session takes the same bytes, once and behind all that it had accepted, and no other
-- ring changes; then only the ring of that session takes the same bytes again; and these bytes
-- decrypt to the packet, which is encrypted just once.
pub send_all-send_to :
    (fuel net_id i : ℕ) (w : WsaSend) (s : Net)
    → Slots.IsValid s.table
    → AllValid s.rings
    → length s.rings ≡ length s.table.connected
    → HasId s.table i net_id
    → w.encrypted ≡ false
    → u16_at w.bytes 0 ≡ length w.bytes
    → header_size ≤ length w.bytes
    → length w.bytes < max_size
    → SentTwice fuel net_id i w s
send_all-send_to fuel net_id i w s t v n k fresh size least h =
    let short : length (encrypt w).bytes < max_size = omega (arith, length-encrypt w, h) in
    let (rings, run, all) =
      send_loop-AllTake fuel (encrypt w).bytes s.table.connected [] s.rings short t.connects v n in
    let (v', same) = AllTake-AllValid all v in
    let (rings', run', one) =
      send_slot-OneTakes fuel (encrypt w).bytes i rings short v'
        (omega (arith, k.0, t.room, n, same)) in
    record {
      rings = rings;
      rings' = rings';
      to_all = send_all-run (suc (suc fuel)) w s rings run;
      to_one =
          send_to-run (suc (suc fuel)) net_id i (encrypt w) (record s { rings = rings }) rings'
            ((find_session_iff s.table net_id i t).1 k)
            (ap (λ q. send_slot (suc (suc fuel)) q.bytes i rings) (encrypt-once w) ∙ run')
          ∙ ap (λ q. some (q, record s { rings = rings' })) (encrypt-once w);
      all_take = all;
      one_takes = one;
      opened =
          ap (λ b. decrypt (encrypt (record { bytes = w.bytes; encrypted = b })).bytes) fresh
          ∙ ap decrypt (sym (append-nil _))
          ∙ decrypt-encrypt w.bytes [] size least (omega (arith, h))
          ∙ append-nil w.bytes;
    }

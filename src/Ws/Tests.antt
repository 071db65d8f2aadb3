-- ===== src/Ws/Tests.antt =====
-- The theorems on HNetWsPacket at concrete frames.
use network.Prelude.{
  ◌⊎◌, ℕ, ◌≡◌, refl, none, some, List, [], ◌∷◌, ◌++◌, arith, replicate, length-replicate, take,
  drop, length-blit,
}
use network.Buffer.{put}
use network.Buffer.Writing.{raw, write_field}
use network.Packet.{PacketEx, image, packet_in}
use network.Packet.Size.{ins, build}
use network.Ws.{
  WsSend, ws_initialize, data_size, ws_decrypt, ws_to_send, ws_packet_check, ws_new_packet, unmask,
}
use network.Ws.Client.{client_frame, key_bytes}
use network.Ws.Frame.{first_frame, IsFrame, first_frame-framed}
use network.Ws.Server.{ws_to_send-IsFrame}
use network.Ws.Built.{block}

abbrev body : List ℕ
body = 1 ∷ 0 ∷ 72 ∷ 105 ∷ []

abbrev frame : List ℕ
frame = client_frame 0x82 (key_bytes 1 2 3 4) body

decrypt_frame : ws_decrypt frame ≡ (6, 0x82 ∷ 132 ∷ 1 ∷ 2 ∷ 3 ∷ 4 ∷ body)
unfolding ws_decrypt data_size unmask
decrypt_frame = refl

-- Eight spare bytes, and a packet of size 6 and type 1.
abbrev memory : List ℕ
memory = 0 ∷ 0 ∷ 0 ∷ 0 ∷ 0 ∷ 0 ∷ 0 ∷ 0 ∷ 6 ∷ 0 ∷ 1 ∷ 0 ∷ 72 ∷ 105 ∷ []

abbrev fresh_send : WsSend
fresh_send = record { block = memory; buf = none; len = 0 }

abbrev sent : WsSend
sent = record { block = take 8 memory ++ (0x82 ∷ 4 ∷ body); buf = some 8; len = 6 }

send-fresh : ws_to_send fresh_send ≡ some sent
unfolding ws_to_send ws_packet_check ws_initialize
send-fresh = refl

ws_to_send-IsFrame_example :
    (0x82 ∷ 4 ∷ body ≡ ws_initialize 4 ++ body)
    × IsFrame (0x82 ∷ 4 ∷ body) 4
    × ((ws_to_send sent ≡ some sent) ⊎ (ws_to_send sent ≡ none))
ws_to_send-IsFrame_example = ws_to_send-IsFrame fresh_send sent refl (omega arith) send-fresh

abbrev storage : List ℕ
storage = replicate 60000 0

abbrev five : List ℕ
five = 1 ∷ 2 ∷ 3 ∷ 4 ∷ 5 ∷ []

abbrev spare : List ℕ
spare = 0 ∷ 0 ∷ 0 ∷ 0 ∷ 0 ∷ 0 ∷ 0 ∷ 0 ∷ []

abbrev bare : PacketEx
bare = build (ws_new_packet storage 12) (ins (raw five) ∷ [])

send-bare :
    first_frame (block spare bare) ≡ some (ws_initialize 3 ++ take 3 (drop 10 (block spare bare)))
unfolding build packet_in write_field put ws_new_packet image ws_packet_check
send-bare =
    first_frame-framed (block spare bare) refl
      (omega (arith, length-blit storage 0 five, length-replicate {A = ℕ} 60000 0))

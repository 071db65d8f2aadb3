-- ===== src/Packet/Wire.antt =====
-- A packet from Send to the receiver's callback: HNetPacket::operator<, the cipher, and the receiver's
-- cast to HNetPacketEx.
use network.Prelude.{
  ℕ, suc, ◌≡◌, ◌<◌, ◌+◌, ◌*◌, ◌/◌, ◌%◌, ◌∙◌, refl, ap, Bool, true, false, not, some, List, [], ◌∷◌,
  ◌++◌, length, take, drop, arith, ◌==◌, le16, u16_at, take-append, length-append, length-take,
  take-take,
}
use network.Buffer.{IsReadable}
use network.Buffer.Contents.{contents}
use network.Packet.{PacketEx, to_send, view_ex, image, check, header, bool_byte}
use network.Packet.Size.{IsSound, check_bounds}
use network.Packet.Cipher.{encrypt, decrypt, decrypt-encrypt}

-- What a built packet's bytes are, once the size is known.
image-take :
    (p : PacketEx) (n : ℕ)
    → p.size ≡ 11 + n
    → take p.size (image p)
      ≡ le16 p.size
        ++ (le16 p.type
            ++ (bool_byte p.buf.success ∷ []
                ++ (le16 p.buf.in_pos
                    ++ (le16 p.buf.out_pos ++ (le16 p.buf.try_size ++ take n p.buf.buf)))))
unfolding image
image-take p n e =
    let f : p.size ≡ suc (suc (suc (suc (suc (suc (suc (suc (suc (suc (suc n)))))))))) =
      omega arith in
    ap (λ k. take k (image p)) f

word16 : (n : ℕ) → n < 65536 → n % 256 + 256 * (n / 256 % 256) ≡ n
word16 n h = omega arith

success_byte : (b : Bool) → not (bool_byte b == 0) ≡ b
success_byte true = refl
success_byte false = refl

-- The packet that the receiver sees: the sender's, with only the bytes that its buffer holds.
pub received : PacketEx → List ℕ → PacketEx
received p rest = record p { buf = record p.buf { buf = take p.buf.in_pos p.buf.buf ++ rest } }

-- A sound packet that Check accepts arrives as it was sent: the receiver's cast finds the same
-- size, type, counters and contents, whatever stands behind it in the buffer.
pub view_ex-take-image :
    (p : PacketEx) (rest : List ℕ)
    → IsSound p
    → view_ex (take p.size (image p) ++ rest) ≡ received p rest
unfolding view_ex received
view_ex-take-image p rest s =
    let v = s.buffer in
    rw (image-take p p.buf.in_pos s.counted, success_byte p.buf.success)
      (λ i. record {
        size = word16 p.size (omega (arith, s.counted, v.in_range)) i;
        type = word16 p.type s.typed i;
        buf = record {
          success = p.buf.success;
          in_pos = word16 p.buf.in_pos (omega (arith, v.in_range)) i;
          out_pos = word16 p.buf.out_pos (omega (arith, v.out_range)) i;
          try_size = word16 p.buf.try_size v.try_range i;
          buf = take p.buf.in_pos p.buf.buf ++ rest;
        };
      })

pub to_send-eq : (p : PacketEx) → check (header p) ≡ true → to_send p ≡ some (take p.size (image p))
unfolding to_send
to_send-eq p h = rw h

received-contents :
    (p : PacketEx) (rest : List ℕ) → IsSound p → contents (received p rest).buf ≡ contents p.buf
unfolding received
received-contents p rest s = ap (drop p.buf.out_pos) (
    take-append p.buf.in_pos (take p.buf.in_pos p.buf.buf) rest
      (omega (arith, length-take p.buf.in_pos p.buf.buf, s.buffer.storage, s.buffer.in_range))
    ∙ take-take p.buf.in_pos p.buf.in_pos p.buf.buf (omega arith))

received-IsReadable : (p : PacketEx) (rest : List ℕ) → IsSound p → IsReadable (received p rest).buf
unfolding received
received-IsReadable p rest s = omega (
  arith,
  length-append (take p.buf.in_pos p.buf.buf) rest,
  length-take p.buf.in_pos p.buf.buf,
  s.buffer.storage,
  s.buffer.in_range,
  s.buffer.out_range,
  s.buffer.try_range,
)

-- What `Send` puts on the wire for a packet, and what the receiver casts its buffer to.
abbrev pub transmit : List ℕ → List ℕ → PacketEx
transmit bytes rest =
    view_ex (decrypt ((encrypt (record { bytes = bytes; encrypted = false })).bytes ++ rest))

to_send-some :
    (p : PacketEx) (bytes : List ℕ)
    → to_send p ≡ some bytes
    → (check (header p) ≡ true) × (bytes ≡ take p.size (image p))
unfolding to_send
to_send-some p bytes e = ground arith

transmit-received :
    (p : PacketEx) (rest bytes : List ℕ)
    → IsSound p
    → to_send p ≡ some bytes
    → transmit bytes rest ≡ received p rest
transmit-received p rest bytes s e =
    let (k, b) = to_send-some p bytes e in
    let (_, low, high) = (check_bounds (header p)).0 k in
    let shape = b ∙ image-take p p.buf.in_pos s.counted in
    let word : u16_at bytes 0 ≡ p.size = ap (λ l. u16_at l 0) shape ∙ word16 p.size (omega arith) in
    let size : length bytes ≡ p.size = omega (
      arith,
      ap length shape,
      length-take p.buf.in_pos p.buf.buf,
      s.counted,
      s.buffer.storage,
      s.buffer.in_range,
    ) in
    rw (decrypt-encrypt bytes rest (omega arith) (omega arith) (omega arith), b)
      (view_ex-take-image p rest s)

-- If HNetPacket::operator< lets a sound packet be sent, what the receiver decrypts and casts to
-- HNetPacketEx has the same type, size and readable contents, and can be read, whatever lies
-- behind it in the receiver's buffer.
pub transmit-contents :
    (p : PacketEx) (rest bytes : List ℕ)
    → IsSound p
    → to_send p ≡ some bytes
    → let q = transmit bytes rest in
      (q.type ≡ p.type) × (q.size ≡ p.size) × (contents q.buf ≡ contents p.buf) × IsReadable q.buf
unfolding received
transmit-contents p rest bytes s e =
    rw (transmit-received p rest bytes s e)
      (refl, refl, received-contents p rest s, received-IsReadable p rest s)

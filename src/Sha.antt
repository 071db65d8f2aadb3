-- ===== src/Sha.antt =====
-- Class SHA1 in Network/HNetIo.cpp, with which the WebSocket handshake answers a client's key: `_Input` is
-- `input`, `_PadMessage` `pad_message`, `_ProcessMessageBlock` `process_message_block`, `_ToBinary` `to_binary`
-- and ToBase64 `to_base64`. Strings are lists of bytes without their terminator. Unsigned sums and shifts
-- wrap at 32 bits.
use network.Prelude.{
  ℕ, zero, suc, ◌+◌, ◌-◌, ◌*◌, ◌/◌, ◌%◌, Bool, true, false, List, [], ◌∷◌, ◌++◌, ltb, ◌==◌,
  if◌then◌else◌, length, get_or, set, take, drop, replicate,
}
use Prim.Native.Nat.{bit_and, bit_or, bit_xor}
pub mod Reference
pub mod Block
pub mod Filling
pub mod Padding
pub mod Loop
pub mod Equivalence
pub mod Base64
mod Tests

-- `H`, and the variables A to E of a block.
pub record Hash : Type 0 where
  pub a : ℕ
  pub b : ℕ
  pub c : ℕ
  pub d : ℕ
  pub e : ℕ

pub record Sha1 : Type 0 where
  pub hash : Hash
  pub length_low : ℕ
  pub length_high : ℕ
  pub block : List ℕ
  pub block_index : ℕ

abbrev pub mask32 : ℕ
mask32 = 4294967295

-- The constructor. `_block` is the memory of the object.
abbrev pub first_hash : Hash
first_hash = record {
  a = 1732584193;
  b = 4023233417;
  c = 2562383102;
  d = 271733878;
  e = 3285377520;
}

unfoldable pub new_sha1 : List ℕ → Sha1
new_sha1 memory = record {
  hash = first_hash;
  length_low = 0;
  length_high = 0;
  block = set memory 0 0;
  block_index = 0;
}

-- `_CircularShift` by 1, 5 and 30 bits: `low` is 2 ^ bits, and `high` 2 ^ (32 - bits).
abbrev pub circular_shift : ℕ → ℕ → ℕ → ℕ
circular_shift low high word = bit_or (bit_and (word * low) mask32) (bit_and word mask32 / high)

abbrev pub shift1 : ℕ → ℕ
shift1 word = circular_shift 2 2147483648 word

abbrev pub shift5 : ℕ → ℕ
shift5 word = circular_shift 32 134217728 word

abbrev pub shift30 : ℕ → ℕ
shift30 word = circular_shift 1073741824 4 word

-- `W[t]` for the first 16 t, from the bytes of the block.
unfoldable pub block_words : ℕ → List ℕ → List ℕ
block_words zero bytes = []
block_words (suc n) bytes =
    bit_or
      (bit_or (bit_or (get_or bytes 0 0 * 16777216) (get_or bytes 1 0 * 65536))
        (get_or bytes 2 0 * 256))
      (get_or bytes 3 0)
    ∷ block_words n (drop 4 bytes)

-- `W[t]` for `n` more t.
unfoldable pub extend_words : ℕ → ℕ → List ℕ → List ℕ
extend_words zero t words = words
extend_words (suc n) t words = extend_words n (t + 1) (
    words
    ++ shift1 (
        bit_xor
          (bit_xor (bit_xor (get_or words (t - 3) 0) (get_or words (t - 8) 0))
            (get_or words (t - 14) 0))
          (get_or words (t - 16) 0))
      ∷ [])

-- The three functions of the loops.
abbrev pub choose : ℕ → ℕ → ℕ → ℕ
choose b c d = bit_or (bit_and b c) (bit_and (bit_xor b mask32) d)

abbrev pub parity : ℕ → ℕ → ℕ → ℕ
parity b c d = bit_xor (bit_xor b c) d

abbrev pub majority : ℕ → ℕ → ℕ → ℕ
majority b c d = bit_or (bit_or (bit_and b c) (bit_and b d)) (bit_and c d)

-- One of the four loops, on its words.
unfoldable pub rounds : (ℕ → ℕ → ℕ → ℕ) → ℕ → List ℕ → Hash → Hash
rounds f k [] v = v
rounds f k (w ∷ ws) v = rounds f k ws (record {
  a = bit_and ((((shift5 v.a + f v.b v.c v.d) + v.e) + w) + k) mask32;
  b = v.a;
  c = shift30 v.b;
  d = v.c;
  e = v.d;
})

abbrev pub add_hash : Hash → Hash → Hash
add_hash h v = record {
  a = bit_and (h.a + v.a) mask32;
  b = bit_and (h.b + v.b) mask32;
  c = bit_and (h.c + v.c) mask32;
  d = bit_and (h.d + v.d) mask32;
  e = bit_and (h.e + v.e) mask32;
}

unfoldable pub process_message_block : Sha1 → Sha1
process_message_block s =
    let w = extend_words 64 16 (block_words 16 s.block) in
    let v1 = rounds choose 1518500249 (take 20 w) s.hash in
    let v2 = rounds parity 1859775393 (take 20 (drop 20 w)) v1 in
    let v3 = rounds majority 2400959708 (take 20 (drop 40 w)) v2 in
    let v4 = rounds parity 3395469782 (take 20 (drop 60 w)) v3 in
    record s { hash = add_hash s.hash v4; block_index = 0 }

-- `_block[_blockIndex++] = v`
abbrev pub put_byte : ℕ → Sha1 → Sha1
put_byte v s = record s { block = set s.block s.block_index v; block_index = s.block_index + 1 }

-- `n` turns of a loop that writes zeros.
unfoldable pub put_zeros : ℕ → Sha1 → Sha1
put_zeros zero s = s
put_zeros (suc n) s = put_zeros n (put_byte 0 s)

-- While `_blockIndex` is less than `bound`.
abbrev pub zeros_until : ℕ → Sha1 → Sha1
zeros_until bound s = put_zeros (bound - s.block_index) s

-- The four bytes of a word, the highest one first.
abbrev pub word_bytes : ℕ → List ℕ
word_bytes n = n / 16777216 % 256 ∷ n / 65536 % 256 ∷ n / 256 % 256 ∷ n % 256 ∷ []

abbrev pub put_bytes : List ℕ → ℕ → List ℕ → List ℕ
put_bytes [] i block = block
put_bytes (b ∷ bs) i block = put_bytes bs (i + 1) (set block i b)

unfoldable pub pad_message : Sha1 → Sha1
pad_message s =
    let t =
      if ltb 55 s.block_index
      then zeros_until 56 (process_message_block (zeros_until 64 (put_byte 128 s)))
      else zeros_until 56 (put_byte 128 s) in
    process_message_block (record t {
      block = put_bytes (word_bytes t.length_high ++ word_bytes t.length_low) 56 t.block;
    })

-- A turn of the loop of `_Input`; the answer is false if the length overflows.
unfoldable pub input_byte : ℕ → Sha1 → Bool × Sha1
input_byte byte s =
    let t = put_byte (bit_and byte 255) s in
    let low = bit_and (s.length_low + 8) mask32 in
    let high = if low == 0 then bit_and (s.length_high + 1) mask32 else s.length_high in
    let u = record t { length_low = low; length_high = high } in
    if low == 0
    then (if high == 0
        then (false, u)
        else (true, if u.block_index == 64 then process_message_block u else u))
    else (true, if u.block_index == 64 then process_message_block u else u)

unfoldable pub input_loop : List ℕ → Sha1 → Bool × Sha1
input_loop [] s = (true, s)
input_loop (byte ∷ bytes) s =
    let (fine, t) = input_byte byte s in
    let rest = input_loop bytes t in if fine then rest else (false, t)

unfoldable pub input : List ℕ → Sha1 → Bool × Sha1
input message s =
    if length message == 0
    then (false, s)
    else (if ltb 64 (length message)
        then (false, s)
        else (let (fine, t) = input_loop message s in
            if fine then (true, pad_message t) else (false, t)))

-- `_ToBinary`
unfoldable pub to_binary : Sha1 → List ℕ
to_binary s =
    word_bytes s.hash.a
    ++ word_bytes s.hash.b
    ++ word_bytes s.hash.c
    ++ word_bytes s.hash.d
    ++ word_bytes s.hash.e

-- `basis_64` and the padding character.
abbrev pub basis_64 : List ℕ
basis_64 =
    65 ∷ 66 ∷ 67 ∷ 68 ∷ 69 ∷ 70 ∷ 71 ∷ 72 ∷ 73 ∷ 74 ∷ 75 ∷ 76 ∷ 77 ∷ 78 ∷ 79 ∷ 80 ∷ 81 ∷ 82 ∷ 83
    ∷ 84 ∷ 85 ∷ 86 ∷ 87 ∷ 88 ∷ 89 ∷ 90 ∷ 97 ∷ 98 ∷ 99 ∷ 100 ∷ 101 ∷ 102 ∷ 103 ∷ 104 ∷ 105 ∷ 106
    ∷ 107 ∷ 108 ∷ 109 ∷ 110 ∷ 111 ∷ 112 ∷ 113 ∷ 114 ∷ 115 ∷ 116 ∷ 117 ∷ 118 ∷ 119 ∷ 120 ∷ 121 ∷ 122
    ∷ 48 ∷ 49 ∷ 50 ∷ 51 ∷ 52 ∷ 53 ∷ 54 ∷ 55 ∷ 56 ∷ 57 ∷ 43 ∷ 47 ∷ []

abbrev pub equals_sign : ℕ
equals_sign = 61

unfoldable pub basis : ℕ → ℕ
basis i = get_or basis_64 i 0

-- The loop of ToBase64 and what follows it. A char is taken as its byte: the masks remove the sign.
unfoldable pub encode : List ℕ → List ℕ
encode [] = []
encode (x ∷ []) =
    basis (bit_and (x / 4) 63) ∷ basis (bit_and x 3 * 16) ∷ equals_sign ∷ equals_sign ∷ []
encode (x ∷ y ∷ []) =
    basis (bit_and (x / 4) 63)
    ∷ basis (bit_or (bit_and x 3 * 16) (bit_and y 240 / 16))
    ∷ basis (bit_and y 15 * 4)
    ∷ equals_sign
    ∷ []
encode (x ∷ y ∷ z ∷ rest) =
    basis (bit_and (x / 4) 63)
    ∷ basis (bit_or (bit_and x 3 * 16) (bit_and y 240 / 16))
    ∷ basis (bit_or (bit_and y 15 * 4) (bit_and z 192 / 64))
    ∷ basis (bit_and z 63)
    ∷ encode rest

unfoldable pub to_base64 : List ℕ → Sha1 → List ℕ × Sha1
to_base64 key s = let (fine, t) = input key s in if fine then (encode (to_binary t), t) else ([], t)

-- ===== src/Sha/Reference.antt =====
-- SHA-1 as RFC 3174 has it, independent of the code but for the record of five words: padding to whole blocks, the
-- message schedule, and one loop of 80 rounds for a block, with the function and the constant of each round.
use network.Prelude.{
  ℕ, zero, suc, ◌+◌, ◌-◌, ◌*◌, ◌/◌, ◌%◌, ◌^◌, List, [], ◌∷◌, ◌++◌, ltb, if◌then◌else◌, length,
  get_or, take, drop, replicate,
}
use network.Sha.{Hash}
use Prim.Native.Nat.{bit_and, bit_or, bit_xor}

-- H0 to H4, section 6.1.
abbrev pub initial_hash : Hash
initial_hash = record {
  a = 0x67452301;
  b = 0xEFCDAB89;
  c = 0x98BADCFE;
  d = 0x10325476;
  e = 0xC3D2E1F0;
}

abbrev pub low_word : ℕ → ℕ
low_word x = bit_and x 0xFFFFFFFF

-- S^n(X), section 3.
abbrev pub rotated : ℕ → ℕ → ℕ
rotated n x = bit_or (low_word (x * 2 ^ n)) (low_word x / 2 ^ (32 - n))

-- A word as four bytes, the most significant first, and back.
abbrev pub word_octets : ℕ → List ℕ
word_octets n = n / 2 ^ 24 % 256 ∷ n / 2 ^ 16 % 256 ∷ n / 2 ^ 8 % 256 ∷ n % 256 ∷ []

unfoldable pub words_of : ℕ → List ℕ → List ℕ
words_of zero octets = []
words_of (suc n) octets =
    bit_or
      (bit_or (bit_or (get_or octets 0 0 * 2 ^ 24) (get_or octets 1 0 * 2 ^ 16))
        (get_or octets 2 0 * 2 ^ 8))
      (get_or octets 3 0)
    ∷ words_of n (drop 4 octets)

-- W(t) = S^1(W(t-3) XOR W(t-8) XOR W(t-14) XOR W(t-16)), section 6.1 step b, for `n` more t.
unfoldable pub schedule : ℕ → ℕ → List ℕ → List ℕ
schedule zero t w = w
schedule (suc n) t w = schedule n (t + 1) (
    w
    ++ rotated 1 (
        bit_xor (bit_xor (bit_xor (get_or w (t - 3) 0) (get_or w (t - 8) 0)) (get_or w (t - 14) 0))
          (get_or w (t - 16) 0))
      ∷ [])

-- f(t;B,C,D) and K(t), section 5.
abbrev pub round_function : ℕ → ℕ → ℕ → ℕ → ℕ
round_function t b c d =
    if ltb t 20
    then bit_or (bit_and b c) (bit_and (bit_xor b 0xFFFFFFFF) d)
    else (if ltb t 40
        then bit_xor (bit_xor b c) d
        else (if ltb t 60
            then bit_or (bit_or (bit_and b c) (bit_and b d)) (bit_and c d)
            else bit_xor (bit_xor b c) d))

abbrev pub round_constant : ℕ → ℕ
round_constant t =
    if ltb t 20
    then 0x5A827999
    else (if ltb t 40 then 0x6ED9EBA1 else (if ltb t 60 then 0x8F1BBCDC else 0xCA62C1D6))

-- Rounds from `t` on.
unfoldable pub all_rounds : ℕ → List ℕ → Hash → Hash
all_rounds t [] v = v
all_rounds t (w ∷ ws) v = all_rounds (t + 1) ws (record {
  a = low_word ((((rotated 5 v.a + round_function t v.b v.c v.d) + v.e) + w) + round_constant t);
  b = v.a;
  c = rotated 30 v.b;
  d = v.c;
  e = v.d;
})

unfoldable pub compress : List ℕ → Hash → Hash
compress block h =
    let v = all_rounds 0 (schedule 64 16 (words_of 16 block)) h in
    record {
      a = low_word (h.a + v.a);
      b = low_word (h.b + v.b);
      c = low_word (h.c + v.c);
      d = low_word (h.d + v.d);
      e = low_word (h.e + v.e);
    }

-- The message, a byte 128, zeros up to 8 bytes before the end of a block, and the length in bits.
unfoldable pub padded : List ℕ → List ℕ
padded m =
    m
    ++ (128
        ∷ (replicate ((119 - length m % 64) % 64) 0
            ++ (word_octets (8 * length m / 4294967296) ++ word_octets (8 * length m))))

-- The first `n` blocks of 64 bytes.
unfoldable pub blocks : ℕ → List ℕ → Hash → Hash
blocks zero bytes h = h
blocks (suc n) bytes h = blocks n (drop 64 bytes) (compress (take 64 bytes) h)

unfoldable pub reference_hash : List ℕ → Hash
reference_hash m = blocks (length (padded m) / 64) (padded m) initial_hash

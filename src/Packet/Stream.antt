-- ===== src/Packet/Stream.antt =====
-- HNetStreamEx and HNetStream in Network/HNetPacket.h and HNetPacket.cpp: a packet of plain bytes.
use network.Prelude.{
  ℕ, ◌≡◌, ◌≤◌, ◌+◌, ◌∙◌, ap, refl, Bool, true, false, List, length, take, blit, arith,
  if◌then◌else◌, ltb, le→ltb, wrap16, add16, sub16, take-blit_end, ◌==◌,
}
use network.Packet.{header_size, packet_type}

-- HNetStreamEx::LENTH, and sizeof(HNetStreamEx).
abbrev pub stream_lenth : ℕ
stream_lenth = 4000

abbrev pub stream_ex_size : ℕ
stream_ex_size = header_size + stream_lenth

pub record StreamEx : Type 0 where
  pub size : ℕ
  pub type : ℕ
  pub buf : List ℕ

-- operator new with `size`, and the constructor. `memory` is what lies in `_buf`.
unfoldable pub new_stream : ℕ → List ℕ → ℕ → StreamEx
new_stream size memory type = record {
  size = if wrap16 size == stream_ex_size then header_size else wrap16 size;
  type = packet_type type;
  buf = memory;
}

-- Set
unfoldable pub set_stream : List ℕ → StreamEx → Bool × StreamEx
set_stream bytes s =
    if ltb stream_lenth (length bytes)
    then (false, s)
    else (true, record s { buf = blit s.buf 0 bytes; size = add16 s.size (length bytes) })

-- operator HNetStream: `_lenth`, and the bytes of `_buf` that it covers.
abbrev pub lenth_of : StreamEx → ℕ
lenth_of s = sub16 s.size header_size

unfoldable pub stream : StreamEx → ℕ × List ℕ
stream s = (lenth_of s, take (lenth_of s) s.buf)

set_stream_fits :
    (bytes : List ℕ) (s : StreamEx)
    → length bytes ≤ stream_lenth
    → set_stream bytes s
      ≡ (true, record s { buf = blit s.buf 0 bytes; size = add16 s.size (length bytes) })
unfolding set_stream
set_stream_fits bytes s h = rw (le→ltb stream_lenth (length bytes) h) refl

-- On a new HNetStreamEx with 4000 bytes of memory, Set of at most 4000 bytes succeeds and the
-- stream is just these bytes; a second Set of at most 4000 bytes succeeds too, and then the
-- stream's length is that of both together.
pub stream-set_stream :
    (memory x y : List ℕ) (type : ℕ)
    → length memory ≡ stream_lenth
    → length x ≤ stream_lenth
    → length y ≤ stream_lenth
    → let (first, s) = set_stream x (new_stream stream_ex_size memory type) in
      let (second, t) = set_stream y s in
      (first ≡ true)
      × (stream s ≡ (length x, x))
      × (second ≡ true)
      × ((stream t).0 ≡ length x + length y)
unfolding new_stream stream
stream-set_stream memory x y type m h k =
    let s : StreamEx = record {
      size = add16 header_size (length x);
      type = packet_type type;
      buf = blit memory 0 x;
    } in
    let n : lenth_of s ≡ length x = omega arith in
    rw (set_stream_fits x (new_stream stream_ex_size memory type) h, set_stream_fits y s k)
      (
        refl,
        (λ i. (n i, take (n i) (blit memory 0 x)))
            ∙ ap (λ l. (length x, l))
                (take-blit_end memory 0 (length x) x (omega arith) (omega (arith, m))),
        refl,
        omega arith,
      )

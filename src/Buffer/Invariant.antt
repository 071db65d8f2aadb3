-- ===== src/Buffer/Invariant.antt =====
-- Every operation of the buffer keeps it well formed, whatever it is given.
use network.Prelude.{
  ℕ, ◌<◌, wrap16, length, ◌+◌, ◌-◌, ◌*◌, ◌/◌, List, [], ◌∷◌, ◌++◌, take, blit, arith, length-blit,
  le16, Option-cases, inl, inr, add16, u16_at, replicate,
}
use network.Buffer.{
  Buffer, IsValid, clear, roll_back, in_success, assign, put, in_sized, in_string, in_wstring, get,
  out_body, out_string, out_empty, wide_bytes,
}
use network.Buffer.Writing.{Field, raw, str, wstr, write_field}
use network.Buffer.RoundTrip.{Kind, object, narrow, wide, read_field}

pub in_success-IsValid : (b : Buffer) → IsValid b → IsValid (in_success b).2
unfolding in_success roll_back
in_success-IsValid b v = ground arith

assign-IsValid :
    (t s : Buffer) → IsValid t → IsValid s → IsValid (assign t s).0 × IsValid (assign t s).1
unfolding assign in_success roll_back
assign-IsValid t s v w = ground (arith, length-blit t.buf 0 (take s.in_pos s.buf))

put-IsValid : (b : Buffer) (bytes : List ℕ) → IsValid b → IsValid (put b bytes).1
unfolding put
put-IsValid b bytes v = ground (arith, length-blit b.buf b.in_pos bytes)

in_sized-IsValid :
    (b : Buffer) (size : ℕ) (memory : List ℕ)
    → size < 65536
    → IsValid b
    → IsValid (in_sized b size memory).1
unfolding in_sized put
in_sized-IsValid b size memory h v = ground (
  arith,
  length-blit b.buf b.in_pos (le16 size),
  length-blit (blit b.buf b.in_pos (le16 size)) (add16 b.in_pos 2) (take size memory),
)

pub write_field-IsValid : (b : Buffer) (f : Field) → IsValid b → IsValid (write_field b f).1
unfolding write_field in_string in_wstring
write_field-IsValid b (raw bytes) v = put-IsValid b (take (wrap16 (length bytes)) bytes) v
write_field-IsValid b (str s) v = in_sized-IsValid b _ (s ++ 0 ∷ []) (omega arith) v
write_field-IsValid b (wstr s) v = in_sized-IsValid b _ (wide_bytes (s ++ 0 ∷ [])) (omega arith) v

get-IsValid : (b : Buffer) (n : ℕ) → IsValid b → IsValid (get b n).1
unfolding get out_empty
get-IsValid b n v = ground arith

out_body-IsValid : (w size count : ℕ) (b : Buffer) → IsValid b → IsValid (out_body w size count b).1
unfolding out_body
out_body-IsValid w size count b v =
    ground (arith, length-blit b.buf (b.out_pos + (size / w - 1) * w) (replicate w 0))

out_string-IsValid : (w count : ℕ) (b : Buffer) → IsValid b → IsValid (out_string w b count).1
unfolding out_string
out_string-IsValid w count b v = elim (Option-cases (get b 2).0) [
  | inl e ↦ rw (e, out_string) (ground (arith, get-IsValid b 2 v))
  | inr (bytes, e) ↦
      rw (e, out_string) (out_body-IsValid w (u16_at bytes 0) count (get b 2).1 (get-IsValid b 2 v))
]

-- One call on a buffer.
pub data Call : Type 0 where
  clears closes : Call
  assigns : Buffer → Call
  writes : Field → Call
  reads : Kind → Call
  read_arrays : ℕ → ℕ → Call

abbrev pub call : Call → Buffer → Buffer
call clears b = clear b
call closes b = (in_success b).2
call (assigns source) b = (assign b source).0
call (writes f) b = (write_field b f).1
call (reads k) b = (read_field b k).1
call (read_arrays w count) b = (out_string w b count).1

abbrev pub SourceIsValid : Call → Type 0
SourceIsValid (assigns source) = IsValid source
SourceIsValid (clears) = Unit {0}
SourceIsValid _ = Unit {0}

-- On a valid buffer any call (Clear, InSuccess, an assignment from a valid buffer, a write of any
-- value or a read of any kind) leaves `_in` and `_out` within the 60000 bytes and `_trySize` a
-- 16-bit word.
pub call-IsValid : (c : Call) (b : Buffer) → SourceIsValid c → IsValid b → IsValid (call c b)
unfolding clear read_field
call-IsValid clears b s v = omega (arith, v.storage)
call-IsValid closes b s v = in_success-IsValid b v
call-IsValid (assigns source) b s v = (assign-IsValid b source v s).0
call-IsValid (writes f) b s v = write_field-IsValid b f v
call-IsValid (reads (object n)) b s v = get-IsValid b (wrap16 n) v
call-IsValid (reads narrow) b s v = out_string-IsValid 1 0 b v
call-IsValid (reads wide) b s v = out_string-IsValid 2 0 b v
call-IsValid (read_arrays w count) b s v = out_string-IsValid w count b v

-- ===== src/Buffer/Tests.antt =====
-- The theorems on Network/Common/Buffer.cpp at concrete buffers and messages.
use network.Prelude.{
  ℕ, ◌≡◌, ◌≤◌, ◌+◌, refl, true, some, none, List, [], ◌∷◌, ◌++◌, map, length, arith, ◌↔◌, replicate,
  length-replicate,
}
use network.Buffer.{Buffer, IsValid, IsReadable, buffer_size, put, get, in_success, out_empty}
use network.Buffer.Contents.{contents}
use network.Buffer.Writing.{Field, raw, str, wstr}
use network.Buffer.Strings.{Sized, text}
use network.Buffer.RoundTrip.{
  write_all, encode_all, read_all, kind, write_all-success_iff, read_all-write_all,
}
use network.Buffer.Rollback.{Fails, RolledBack, after_failure, roll_back_strings}
use network.Buffer.Invariant.{call, read_arrays, call-IsValid}

abbrev memory : List ℕ
memory = replicate 60000 0

abbrev fresh : Buffer
fresh = record { success = true; in_pos = 0; out_pos = 0; try_size = 0; buf = memory }

-- Ten bytes of earlier messages, all closed by InSuccess.
abbrev used : Buffer
used = record fresh { in_pos = 10 }

abbrev message : List Field
message = raw (7 ∷ 8 ∷ []) ∷ str (65 ∷ []) ∷ wstr (66 ∷ 300 ∷ []) ∷ []

abbrev huge : Field
huge = raw memory

fresh-IsValid : IsValid fresh
fresh-IsValid = omega (arith, length-replicate {A = ℕ} 60000 0)

used-IsValid : IsValid used
used-IsValid = omega (arith, length-replicate {A = ℕ} 60000 0)

-- A small buffer in use: a write, a read, and a read of too much.
abbrev small : Buffer
small = record { success = true; in_pos = 0; out_pos = 0; try_size = 0; buf = 0 ∷ 0 ∷ 0 ∷ [] }

put-get : (get (put small (5 ∷ 6 ∷ [])).1 2).0 ≡ some (5 ∷ 6 ∷ [])
unfolding put get out_empty
put-get = refl

get_too_much : (get (put small (5 ∷ 6 ∷ [])).1 3).0 ≡ none
unfolding put get out_empty
get_too_much = refl

in_success-put : (in_success (put small (5 ∷ [])).1).2.try_size ≡ 0
unfolding put in_success
in_success-put = refl

write_all-success_iff_example :
    ((write_all fresh message).1.success ≡ true) ↔ (0 + length (encode_all message) ≤ buffer_size)
write_all-success_iff_example =
    write_all-success_iff fresh message fresh-IsValid refl (omega arith)
      (omega arith, (tt, (omega arith, tt)))

message_accepted : (write_all fresh message).1.success ≡ true
message_accepted = write_all-success_iff_example.1 (omega arith)

read_all-write_all_example :
    ((read_all (write_all fresh message).1 (map kind message)).0
      ≡ some (7 ∷ 8 ∷ []) ∷ some (65 ∷ 0 ∷ []) ∷ some (66 ∷ 0 ∷ 44 ∷ 1 ∷ 0 ∷ 0 ∷ []) ∷ [])
    × (contents (read_all (write_all fresh message).1 (map kind message)).1 ≡ [])
read_all-write_all_example =
    read_all-write_all fresh message fresh-IsValid refl refl
      (omega arith, (omega arith, (omega arith, tt))) (omega arith, (tt, (omega arith, tt)))
      message_accepted

message-Fails : Fails used message huge
message-Fails = record {
  valid = used-IsValid;
  success = refl;
  closed = refl;
  order = omega arith;
  fits = omega arith;
  small = omega (arith, length-replicate {A = ℕ} 60000 0);
  over = omega (arith, length-replicate {A = ℕ} 60000 0);
}

roll_back_strings_example : RolledBack used 6 18 (after_failure used message huge)
roll_back_strings_example = roll_back_strings used message huge message-Fails (omega arith)

-- The string "AB" alone.
abbrev letters : Buffer
letters = record {
  success = true;
  in_pos = 5;
  out_pos = 0;
  try_size = 0;
  buf = 3 ∷ 0 ∷ 65 ∷ 66 ∷ 0 ∷ [];
}

letters-IsReadable : IsReadable letters
letters-IsReadable = omega arith

letters-Sized : Sized 1 3 3 (65 ∷ 66 ∷ [])
unfolding replicate
letters-Sized = omega arith

letters-contents : contents letters ≡ (3 ∷ 0 ∷ text 1 (65 ∷ 66 ∷ [])) ++ []
unfolding replicate
letters-contents = refl

call-IsValid_example : IsValid (call (read_arrays 1 5) used)
call-IsValid_example = call-IsValid (read_arrays 1 5) used tt used-IsValid

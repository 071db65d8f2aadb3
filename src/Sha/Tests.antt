-- ===== src/Sha/Tests.antt =====
-- SHA-1 on known inputs.
use network.Prelude.{ℕ, ◌≡◌, refl, List, [], ◌∷◌, true, replicate, length, length-replicate, arith}
use network.Sha.Reference.{reference_hash}
use network.Sha.Loop.{AllBytes}
use network.Sha.Equivalence.{input-reference_hash}
use network.Sha.{
  new_sha1, to_base64, input, input_loop, input_byte, pad_message, process_message_block, rounds,
  extend_words, block_words, put_zeros, to_binary, encode, basis,
}

-- The example of RFC 6455: the key of a client, and the answer.
abbrev accept_key : List ℕ
accept_key =
    100 ∷ 71 ∷ 104 ∷ 108 ∷ 73 ∷ 72 ∷ 78 ∷ 104 ∷ 98 ∷ 88 ∷ 66 ∷ 115 ∷ 90 ∷ 83 ∷ 66 ∷ 117 ∷ 98 ∷ 50
    ∷ 53 ∷ 106 ∷ 90 ∷ 81 ∷ 61 ∷ 61 ∷ 50 ∷ 53 ∷ 56 ∷ 69 ∷ 65 ∷ 70 ∷ 65 ∷ 53 ∷ 45 ∷ 69 ∷ 57 ∷ 49 ∷ 52
    ∷ 45 ∷ 52 ∷ 55 ∷ 68 ∷ 65 ∷ 45 ∷ 57 ∷ 53 ∷ 67 ∷ 65 ∷ 45 ∷ 67 ∷ 53 ∷ 65 ∷ 66 ∷ 48 ∷ 68 ∷ 67 ∷ 56
    ∷ 53 ∷ 66 ∷ 49 ∷ 49 ∷ []

abbrev accept_value : List ℕ
accept_value =
    115 ∷ 51 ∷ 112 ∷ 80 ∷ 76 ∷ 77 ∷ 66 ∷ 105 ∷ 84 ∷ 120 ∷ 97 ∷ 81 ∷ 57 ∷ 107 ∷ 89 ∷ 71 ∷ 122 ∷ 122
    ∷ 104 ∷ 90 ∷ 82 ∷ 98 ∷ 75 ∷ 43 ∷ 120 ∷ 79 ∷ 111 ∷ 61 ∷ []

accepts : (to_base64 accept_key (new_sha1 (replicate 64 7))).0 ≡ accept_value
unfolding new_sha1 to_base64 input input_loop input_byte pad_message process_message_block rounds
    extend_words block_words put_zeros to_binary encode basis replicate
accepts = refl

abbrev memory : List ℕ
memory = replicate 64 7

length-memory : length memory ≡ 64
length-memory = length-replicate {A = ℕ} 64 7

accept_key-AllBytes : AllBytes accept_key
accept_key-AllBytes = omega arith

input-reference_hash_example :
    let (fine, s) = input accept_key (new_sha1 memory) in
    (fine ≡ true) × (s.hash ≡ reference_hash accept_key)
input-reference_hash_example =
    input-reference_hash accept_key memory length-memory accept_key-AllBytes (omega arith)
      (omega arith)

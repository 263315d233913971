-- ===== src/Tests/Digests.antt =====
-- Digests of short texts.
use sws.Base.{true, length, ◌≡◌, refl, arith, some, [], ◌∷◌, codes, replicate}
use sws.Md5.{
  Context, initial_state, init, update, final, transform, apply_operations, apply_operation,
  rotate_left, mixed, decode, encode, blocks, write_to_string, digest_file, digest_memory,
}
use sws.Md5.Table.{operations}
use sws.Md5.Digest.{digest, is_hex, digest_file-digest}

abbrev memory : Context
memory = record { state = initial_state; count0 = 7; count1 = 7; buffer = replicate 64 1 }

-- With words of 32 bits, and with those of 64 bits.
digest_memory-short :
    digest_memory 32 memory (codes "abc") ≡ some (codes "900150983cd24fb0d6963f7d28e17f72")
unfolding digest_memory init update final transform apply_operations apply_operation rotate_left
    mixed operations decode encode blocks write_to_string initial_state
digest_memory-short = refl

digest_memory-long :
    digest_memory 64 memory (codes "abc") ≡ some (codes "7999dc75e8da648c6727e137c5b77803")
unfolding digest_memory init update final transform apply_operations apply_operation rotate_left
    mixed operations decode encode blocks write_to_string initial_state
digest_memory-long = refl

digest_file-digest_example :
    (digest_file 64 memory (codes "a" ∷ codes "bc" ∷ [])
      ≡ some (write_to_string (digest 64 (codes "abc"))))
    × (digest_memory 64 memory (codes "abc") ≡ some (write_to_string (digest 64 (codes "abc"))))
    × (is_hex (write_to_string (digest 64 (codes "abc"))) ≡ true)
    × (length (write_to_string (digest 64 (codes "abc"))) ≡ 32)
digest_file-digest_example =
    digest_file-digest 64 (omega arith) memory (codes "a" ∷ codes "bc" ∷ []) refl (omega arith)

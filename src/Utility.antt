-- ===== src/Utility.antt =====
-- src/utility.cpp, `utf8_leng`: the number of characters of a text.
pub mod Utf8
use sws.Base.{
  ℕ, zero, suc, ◌+◌, Bool, Option, none, some, List, [], ◌∷◌, if◌then◌else◌, ◌==◌, leb, Text,
}
use Prim.Native.Nat.{bit_and}

-- How many bytes are skipped behind a byte; `none` where the function returns 0.
unfoldable pub skipped : ℕ → Option ℕ
skipped c =
    if leb c 128
    then some 0
    else if bit_and c 0xE0 == 0xC0
    then some 1
    else if bit_and c 0xF0 == 0xE0
    then some 2
    else if bit_and c 0xF8 == 0xF0
    then some 3
    else none

-- The loop, with `q` characters counted and `skip` bytes of the last one to pass. It may end within
-- a character.
unfoldable pub leng_loop : (q skip : ℕ) → Text → ℕ
leng_loop q skip [] = q
leng_loop q (suc skip) (c ∷ s) = leng_loop q skip s
leng_loop q zero (c ∷ s) = elim (skipped c) [ none ↦ 0 | some n ↦ leng_loop (suc q) n s ]

unfoldable pub utf8_leng : Text → ℕ
unfolding leng_loop skipped
utf8_leng s = leng_loop 0 0 s

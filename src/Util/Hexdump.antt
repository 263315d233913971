-- ===== src/Util/Hexdump.antt =====
-- src/util.c, `util_hexdump`: the lines that a dump of bytes is handed over in.
--
-- `isprint` is that of the C library. `dir` is the mark of the first line, and `str` the array of 68
-- bytes, whose content at first is not known; a line is its content when `function` is called.
use sws.Base.{
  ℕ, zero, suc, ◌+◌, ◌-◌, ◌*◌, ◌/◌, ◌%◌, ◌≡◌, refl, Bool, true, ◌||◌, not, List, [], ◌∷◌,
  if◌then◌else◌, ◌==◌, ltb, length, set, arith, Bool-cases, inl, inr,
}

abbrev hexdigit : ℕ → ℕ
hexdigit d = if ltb d 10 then d + 48 else d + 87

-- The four bytes that the byte with the index `i` is written to.
unfoldable pub put_byte : (ℕ → Bool) → List ℕ → ℕ → ℕ → List ℕ
put_byte isprint str i b =
    let column = i % 16 * 3 in
    let str = set str (column + 1) 32 in
    let str = set str (column + 2) (hexdigit (b / 16)) in
    let str = set str (column + 3) (hexdigit (b % 16)) in
    set str (i % 16 + 51) (if isprint b then b else b'.')

unfoldable pub end_line : List ℕ → List ℕ
end_line str = set (set (set str 49 32) 50 32) 67 0

-- The columns from `j` on, of which there are `n`, left blank.
unfoldable pub pad : List ℕ → (j n : ℕ) → List ℕ
pad str j zero = str
pad str j (suc n) =
    let column = j * 3 in
    let str = set str (column + 1) 32 in
    let str = set str (column + 2) 32 in
    let str = set str (column + 3) 32 in pad (set str (j + 51) 32) (suc j) n

-- The loop over the bytes, and the incomplete line behind it.
unfoldable pub hexdump_loop : (ℕ → Bool) → List ℕ → ℕ → List ℕ → List (List ℕ)
hexdump_loop isprint str i [] =
    if ltb 0 (i % 16) then end_line (pad str (i % 16) (16 - i % 16)) ∷ [] else []
hexdump_loop isprint str i (b ∷ buf) =
    let str' = put_byte isprint str i b in
    let on = hexdump_loop isprint str' (suc i) buf in
    let next_line = hexdump_loop isprint (set (end_line str') 0 32) (suc i) buf in
    if (i + 1) % 16 == 0 then end_line str' ∷ next_line else on

unfoldable pub util_hexdump :
    (isprint : ℕ → Bool) (str : List ℕ) (dir : ℕ) (buf : List ℕ) (function : Bool) → List (List ℕ)
unfolding hexdump_loop
util_hexdump isprint str dir buf function =
    if not function || length buf == 0 then [] else hexdump_loop isprint (set str 0 dir) 0 buf

hexdump_loop-length :
    (isprint : ℕ → Bool) (str : List ℕ) (i : ℕ) (buf : List ℕ)
    → length (hexdump_loop isprint str i buf) ≡ (i + length buf + 15) / 16 - i / 16
unfolding hexdump_loop
hexdump_loop-length isprint str i [] = ground arith
hexdump_loop-length isprint str i (b ∷ buf) = elim (Bool-cases ((i + 1) % 16 == 0)) [
  | inl e ↦ ground (
    arith,
    hexdump_loop-length isprint (set (end_line (put_byte isprint str i b)) 0 32) (suc i) buf,
  )
  | inr e ↦ ground (arith, hexdump_loop-length isprint (put_byte isprint str i b) (suc i) buf)
]

-- A dump has one line for every sixteen bytes, and one for the rest.
pub length-util_hexdump :
    (isprint : ℕ → Bool) (str : List ℕ) (dir : ℕ) (buf : List ℕ)
    → length (util_hexdump isprint str dir buf true) ≡ (length buf + 15) / 16
unfolding util_hexdump
length-util_hexdump isprint str dir [] = refl
length-util_hexdump isprint str dir (b ∷ buf) =
    let e = hexdump_loop-length isprint (set str 0 dir) 0 (b ∷ buf) in ground (arith, e)

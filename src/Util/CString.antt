-- ===== src/Util/CString.antt =====
-- The C library's functions on texts that src/util.c calls. A text is the list of its bytes,
-- without the NUL that ends it; `rest` is what an end pointer points to.
use sws.Base.{
  ℕ, ◌+◌, ◌-◌, ◌*◌, ◌%◌, ◌^◌, Bool, true, false, ◌&&◌, ◌||◌, Option, none, some, List, [], ◌∷◌, leb,
  ltb, ◌==◌, if◌then◌else◌, take,
}
use Prim.Native.Nat.{min}

unfoldable pub is_space : ℕ → Bool
is_space c = c == b' ' || (leb 9 c && leb c 13)

unfoldable pub to_lower : ℕ → ℕ
to_lower c = if leb b'A' c && leb c b'Z' then c + 32 else c

-- The value of a digit in bases up to 36; 36 for a byte that is no digit.
unfoldable pub digit_value : ℕ → ℕ
digit_value c =
    if leb b'0' c && leb c b'9'
    then c - b'0'
    else if leb b'a' c && leb c b'z'
    then c - b'a' + 10
    else if leb b'A' c && leb c b'Z'
    then c - b'A' + 10
    else 36

unfoldable pub skip_spaces : List ℕ → List ℕ
unfolding is_space
skip_spaces [] = []
skip_spaces (c ∷ s) = if is_space c then skip_spaces s else c ∷ s

-- The longest run of digits at the head of the text: its value after `acc`, and the rest.
unfoldable pub scan_digits : ℕ → ℕ → List ℕ → ℕ × List ℕ
unfolding digit_value
scan_digits base acc [] = (acc, [])
scan_digits base acc (c ∷ s) =
    let more = scan_digits base (acc * base + digit_value c) s in
    if ltb (digit_value c) base then more else (acc, c ∷ s)

unfoldable pub starts_digit : ℕ → List ℕ → Bool
unfolding digit_value
starts_digit base [] = false
starts_digit base (c ∷ s) = ltb (digit_value c) base

-- The sign of a number: whether it is negative, and the text behind the sign.
unfoldable pub sign : List ℕ → Bool × List ℕ
sign [] = (false, [])
sign (c ∷ s) = if c == b'-' then (true, s) else if c == b'+' then (false, s) else (false, c ∷ s)

-- The base that base 0 stands for, and the text behind the prefix.
unfoldable pub prefix : List ℕ → ℕ × List ℕ
unfolding starts_digit
prefix [] = (10, [])
prefix (c ∷ []) = (if c == b'0' then 8 else 10, c ∷ [])
prefix (c ∷ x ∷ s) =
    if c == b'0'
    then if (x == b'x' || x == b'X') && starts_digit 16 s then (16, s) else (8, c ∷ x ∷ s)
    else (10, c ∷ x ∷ s)

abbrev pub long_max : ℕ
long_max = 2 ^ 63 - 1

-- A long as its 64 bits. A value out of range is clamped.
unfoldable pub clamp_long : Bool → ℕ → ℕ
clamp_long true n = (2 ^ 64 - min n (2 ^ 63)) % 2 ^ 64
clamp_long false n = min n long_max

-- strtol(s, &rest, 0). Where there is no number, the value is 0 and `rest` is the whole text.
unfoldable pub strtol : List ℕ → ℕ × List ℕ
strtol s =
    let (negative, digits) = sign (skip_spaces s) in
    let (base, t) = prefix digits in
    let (value, rest) = scan_digits base 0 t in
    if starts_digit base t then (clamp_long negative value, rest) else (0, s)

-- The text behind the prefix 0x of a hexadecimal number, if it has one.
unfoldable pub hex_prefix : List ℕ → Bool × List ℕ
hex_prefix [] = (false, [])
hex_prefix (c ∷ []) = (false, c ∷ [])
hex_prefix (c ∷ x ∷ s) =
    if c == b'0' && (x == b'x' || x == b'X') then (true, s) else (false, c ∷ x ∷ s)

-- sscanf(s, "%08x…", &value): at most eight bytes behind the white space, read as an unsigned int.
-- `none` where the conversion fails; what follows it in the format has no effect on the result.
unfoldable pub sscanf_x8 : List ℕ → Option ℕ
sscanf_x8 s =
    let (negative, digits) = sign (take 8 (skip_spaces s)) in
    let (prefixed, t) = hex_prefix digits in
    let (value, rest) = scan_digits 16 0 t in
    if prefixed || starts_digit 16 t
    then some (if negative then (2 ^ 32 - value) % 2 ^ 32 else value)
    else none

-- strtoul(s, NULL, 16), with an unsigned long of 64 bits.
unfoldable pub strtoul_hex : List ℕ → ℕ
strtoul_hex s =
    let (negative, digits) = sign (skip_spaces s) in
    let t = (hex_prefix digits).1 in
    let value = min (scan_digits 16 0 t).0 (2 ^ 64 - 1) in
    if starts_digit 16 t then if negative then (2 ^ 64 - value) % 2 ^ 64 else value else 0

-- strcasecmp(a, b) == 0
unfoldable pub equal_nocase : List ℕ → List ℕ → Bool
unfolding to_lower
equal_nocase [] [] = true
equal_nocase [] (d ∷ b) = false
equal_nocase (c ∷ a) [] = false
equal_nocase (c ∷ a) (d ∷ b) = to_lower c == to_lower d && equal_nocase a b

-- ===== src/Bluez/Identifier.antt =====
-- include/src/uuid-helper.c: the texts of identifiers and of devices.
--
-- The conversions of a 16-bit and a 32-bit identifier to 128 bits, which lib/sdp.c has, are the
-- arguments `uuid16_to_uuid128` and `uuid32_to_uuid128`; `asprintf` has memory.
use sws.Base.{
  ℕ, zero, suc, ◌+◌, ◌-◌, ◌*◌, ◌/◌, ◌%◌, ◌≡◌, ◌⊎◌, inl, inr, refl, Bool, true, ◌&&◌, Option, none,
  some, List, [], ◌∷◌, ◌++◌, if◌then◌else◌, ◌==◌, ltb, length, get_or, take, drop, Text, codes,
  joined,
}

-- `n` in hexadecimal, with `w` digits, which `ten` and more begin at the byte `ten`.
unfoldable pub hex : (ten w n : ℕ) → Text
hex ten zero n = []
hex ten (suc w) n =
    hex ten w (n / 16) ++ (if ltb (n % 16) 10 then n % 16 + 48 else n % 16 + ten - 10) ∷ []

unfoldable pub bt_modalias : (source vendor product version : ℕ) → Option Text
unfolding hex
bt_modalias source vendor product version =
    let rest = joined (
      codes ":v"
      ∷ hex b'A' 4 vendor
      ∷ codes "p"
      ∷ hex b'A' 4 product
      ∷ codes "d"
      ∷ hex b'A' 4 version
      ∷ []) in
    if source == 1
    then some (codes "bluetooth" ++ rest)
    else if source == 2
    then some (codes "usb" ++ rest)
    else none

-- `uuid_t`: a type that is none of the three is `other`.
pub data Uuid : Type 0 where
  uuid16 uuid32 : ℕ → Uuid
  uuid128 : List ℕ → Uuid
  other : Uuid

-- What `memcpy` and `ntohl` or `ntohs` make of bytes: the number whose digits to the base 256 they are.
unfoldable pub big_endian : ℕ → List ℕ → ℕ
big_endian n [] = n
big_endian n (b ∷ bs) = big_endian (n * 256 + b) bs

abbrev field : List ℕ → ℕ → ℕ → ℕ
field data_ i n = big_endian 0 (take n (drop i data_))

-- The format "%.8x-%.4x-%.4x-%.4x-%.8x%.4x" at the six parts of 16 bytes.
unfoldable pub print_uuid128 : List ℕ → Text
unfolding hex big_endian
print_uuid128 d = joined (
    hex b'a' 8 (field d 0 4)
    ∷ codes "-"
    ∷ hex b'a' 4 (field d 4 2)
    ∷ codes "-"
    ∷ hex b'a' 4 (field d 6 2)
    ∷ codes "-"
    ∷ hex b'a' 4 (field d 8 2)
    ∷ codes "-"
    ∷ hex b'a' 8 (field d 10 4)
    ∷ hex b'a' 4 (field d 14 2)
    ∷ [])

unfoldable pub bt_uuid2string :
    (uuid16_to_uuid128 uuid32_to_uuid128 : ℕ → List ℕ) → Option Uuid → Option Text
bt_uuid2string from16 from32 none = none
bt_uuid2string from16 from32 (some (uuid16 u)) = some (print_uuid128 (from16 u))
bt_uuid2string from16 from32 (some (uuid32 u)) = some (print_uuid128 (from32 u))
bt_uuid2string from16 from32 (some (uuid128 d)) = some (print_uuid128 d)
bt_uuid2string from16 from32 (some other) = none

unfoldable pub is_uuid128 : Text → Bool
is_uuid128 s =
    length s == 36
    && (get_or s 8 0 == b'-'
        && (get_or s 13 0 == b'-' && (get_or s 18 0 == b'-' && get_or s 23 0 == b'-')))

print_uuid128-is_uuid128 : (d : List ℕ) → is_uuid128 (print_uuid128 d) ≡ true
unfolding print_uuid128 is_uuid128 hex
print_uuid128-is_uuid128 d = refl

-- Every text that `bt_uuid2string` makes has the form of a 128-bit identifier, and it makes none only
-- of no identifier, or of one of an unknown type.
pub is_uuid128-bt_uuid2string :
    (from16 from32 : ℕ → List ℕ) (u : Option Uuid)
    → ((s : Text) × (bt_uuid2string from16 from32 u ≡ some s) × (is_uuid128 s ≡ true))
      ⊎ (((u ≡ none) ⊎ (u ≡ some other)) × (bt_uuid2string from16 from32 u ≡ none))
unfolding bt_uuid2string
is_uuid128-bt_uuid2string from16 from32 none = inr (inl refl, refl)
is_uuid128-bt_uuid2string from16 from32 (some (uuid16 u)) =
    inl (_, refl, print_uuid128-is_uuid128 (from16 u))
is_uuid128-bt_uuid2string from16 from32 (some (uuid32 u)) =
    inl (_, refl, print_uuid128-is_uuid128 (from32 u))
is_uuid128-bt_uuid2string from16 from32 (some (uuid128 d)) =
    inl (_, refl, print_uuid128-is_uuid128 d)
is_uuid128-bt_uuid2string from16 from32 (some other) = inr (inr refl, refl)

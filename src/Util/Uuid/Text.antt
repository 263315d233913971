-- ===== src/Util/Uuid/Text.antt =====
-- `bt_uuidstr_to_str` on the texts that stand for identifiers.
use sws.Base.{
  ℕ, zero, suc, ◌+◌, ◌*◌, ◌%◌, ◌/◌, ◌^◌, ◌<◌, ◌≡◌, refl, ap, ◌∙◌, String, Bool, true, false, not,
  ◌&&◌, some, List, [], ◌∷◌, ◌==◌, if◌then◌else◌, arith, none, drop, codes, ltb,
}
use sws.Util.CString.{
  equal_nocase, scan_digits, starts_digit, is_space, digit_value, sscanf_x8, skip_spaces, sign,
  hex_prefix,
}
use sws.Util.Uuid.{
  uuid128_table, find_uuid128, bt_uuidstr_to_str, base_uuid_to_str, bt_uuid32_to_str, base_suffix,
}

abbrev pub hex_digit : ℕ → ℕ
hex_digit d = if ltb d 10 then d + 48 else d + 87

-- The identifier with the 32-bit value `v` over the base of the Bluetooth SIG, in lower case.
abbrev pub uuid_text : ℕ → List ℕ
uuid_text v =
    hex_digit (v / 2 ^ 28 % 16)
    ∷ hex_digit (v / 2 ^ 24 % 16)
    ∷ hex_digit (v / 2 ^ 20 % 16)
    ∷ hex_digit (v / 2 ^ 16 % 16)
    ∷ hex_digit (v / 2 ^ 12 % 16)
    ∷ hex_digit (v / 2 ^ 8 % 16)
    ∷ hex_digit (v / 2 ^ 4 % 16)
    ∷ hex_digit (v % 16)
    ∷ base_suffix

equal_nocase-drop :
    (n : ℕ) (a b : List ℕ) → equal_nocase a b ≡ true → equal_nocase (drop n a) (drop n b) ≡ true
unfolding equal_nocase
equal_nocase-drop zero a b h = h
equal_nocase-drop (suc n) [] [] h = refl
equal_nocase-drop (suc n) [] (d ∷ b) h = ground arith
equal_nocase-drop (suc n) (c ∷ a) [] h = ground arith
equal_nocase-drop (suc n) (c ∷ a) (d ∷ b) h = ground (arith, equal_nocase-drop n a b)

-- No entry of the table ends like the identifiers of the SIG.
no_entry_ends_with : List ℕ → List (String × String) → Bool
unfolding equal_nocase
no_entry_ends_with s [] = true
no_entry_ends_with s ((k, str) ∷ t) =
    not (equal_nocase (drop 8 (codes k)) s) && no_entry_ends_with s t

find_uuid128-none :
    (u : List ℕ) (t : List (String × String))
    → no_entry_ends_with (drop 8 u) t ≡ true
    → find_uuid128 u t ≡ none
unfolding find_uuid128 no_entry_ends_with
find_uuid128-none u [] h = refl
find_uuid128-none u ((k, s) ∷ t) h =
    ground (arith, equal_nocase-drop 8 (codes k) u, find_uuid128-none u t)

table_has_no_base : no_entry_ends_with base_suffix uuid128_table ≡ true
unfolding no_entry_ends_with uuid128_table
table_has_no_base = refl

-- A digit is read back with its value, and is taken for nothing else.
pub hex_digit_lem :
    (d : ℕ)
    → d < 16
    → (is_space (hex_digit d) ≡ false)
      × ((hex_digit d == b'-') ≡ false)
      × ((hex_digit d == b'+') ≡ false)
      × ((hex_digit d == b'x') ≡ false)
      × ((hex_digit d == b'X') ≡ false)
      × (digit_value (hex_digit d) ≡ d)
unfolding is_space digit_value
hex_digit_lem d h = ground arith

pub scan_digits-hex :
    (acc d : ℕ) (s : List ℕ)
    → d < 16
    → scan_digits 16 acc (hex_digit d ∷ s) ≡ scan_digits 16 (acc * 16 + d) s
unfolding scan_digits
scan_digits-hex acc d s h = ground (arith, hex_digit_lem d h)

pub skip_spaces-hex :
    (d : ℕ) (s : List ℕ) → d < 16 → skip_spaces (hex_digit d ∷ s) ≡ hex_digit d ∷ s
unfolding skip_spaces
skip_spaces-hex d s h = ground (arith, hex_digit_lem d h)

pub sign-hex : (d : ℕ) (s : List ℕ) → d < 16 → sign (hex_digit d ∷ s) ≡ (false, hex_digit d ∷ s)
unfolding sign
sign-hex d s h = ground (arith, hex_digit_lem d h)

pub hex_prefix-hex :
    (d e : ℕ) (s : List ℕ)
    → e < 16
    → hex_prefix (hex_digit d ∷ hex_digit e ∷ s) ≡ (false, hex_digit d ∷ hex_digit e ∷ s)
unfolding hex_prefix
hex_prefix-hex d e s h = ground (arith, hex_digit_lem e h)

pub starts_digit-hex : (d : ℕ) (s : List ℕ) → d < 16 → starts_digit 16 (hex_digit d ∷ s) ≡ true
unfolding starts_digit
starts_digit-hex d s h = ground (arith, hex_digit_lem d h)

pub scan_digits-nil : (acc : ℕ) → scan_digits 16 acc [] ≡ (acc, [])
unfolding scan_digits
scan_digits-nil acc = refl

-- Eight digits are read as the number that they write.
sscanf_x8-digits :
    (a b c d e f g h : ℕ) (s : List ℕ)
    → a < 16
    → b < 16
    → c < 16
    → d < 16
    → e < 16
    → f < 16
    → g < 16
    → h < 16
    → sscanf_x8 (
        hex_digit a
        ∷ hex_digit b
        ∷ hex_digit c
        ∷ hex_digit d
        ∷ hex_digit e
        ∷ hex_digit f
        ∷ hex_digit g
        ∷ hex_digit h
        ∷ s)
      ≡ some (((((((a * 16 + b) * 16 + c) * 16 + d) * 16 + e) * 16 + f) * 16 + g) * 16 + h)
unfolding sscanf_x8
sscanf_x8-digits a b c d e f g h s pa pb pc pd pe pf pg ph =
    rw (skip_spaces-hex a _ pa, sign-hex a _ pa, hex_prefix-hex a b _ pb, starts_digit-hex a _ pa)
      (ap some (ap (λ (r : ℕ × List ℕ). r.0) digits ∙ omega arith))
  where
    digits :
        scan_digits 16 0 (
          hex_digit a
          ∷ hex_digit b
          ∷ hex_digit c
          ∷ hex_digit d
          ∷ hex_digit e
          ∷ hex_digit f
          ∷ hex_digit g
          ∷ hex_digit h
          ∷ [])
        ≡ (
          (((((((0 * 16 + a) * 16 + b) * 16 + c) * 16 + d) * 16 + e) * 16 + f) * 16 + g) * 16 + h,
          [],
        )
    digits = rw (
      scan_digits-hex _ a _ pa,
      scan_digits-hex _ b _ pb,
      scan_digits-hex _ c _ pc,
      scan_digits-hex _ d _ pd,
      scan_digits-hex _ e _ pe,
      scan_digits-hex _ f _ pf,
      scan_digits-hex _ g _ pg,
      scan_digits-hex _ h _ ph,
      scan_digits-nil,
    )

sscanf_x8-uuid_text : (v : ℕ) → v < 2 ^ 32 → sscanf_x8 (uuid_text v) ≡ some v
sscanf_x8-uuid_text v h =
    sscanf_x8-digits _ _ _ _ _ _ _ _ base_suffix (omega arith) (omega arith) (omega arith)
      (omega arith) (omega arith) (omega arith) (omega arith) (omega arith)
    ∙ ap some (omega arith)

-- The text of a 32-bit identifier over the base of the Bluetooth SIG is given the name of that
-- identifier.
pub bt_uuidstr_to_str-uuid_text :
    (v : ℕ) → v < 2 ^ 32 → bt_uuidstr_to_str (some (uuid_text v)) ≡ some (bt_uuid32_to_str v)
unfolding bt_uuidstr_to_str base_uuid_to_str
bt_uuidstr_to_str-uuid_text v h =
    rw (find_uuid128-none (uuid_text v) uuid128_table table_has_no_base, sscanf_x8-uuid_text v h)

-- ===== src/Joystick/Udev/Section.antt =====
-- The name of a device's section in the file of settings, from what udev says of the device.
use sws.Base.{
  ℕ, suc, ◌+◌, ◌*◌, ◌/◌, ◌%◌, ◌^◌, ◌<◌, ◌≤◌, ◌≡◌, ◌∙◌, refl, [], ◌∷◌, ◌++◌, Text, arith, dec_lt,
}
use sws.Util.CString.{strtoul_hex}
use sws.Util.Uuid.Text.{
  hex_digit, scan_digits-hex, skip_spaces-hex, sign-hex, hex_prefix-hex, starts_digit-hex,
  scan_digits-nil,
}
use sws.Joystick.Storage.{hwid, four_digits, hex_digits}

-- An identifier of the USB as udev writes it.
abbrev pub sysattr : ℕ → Text
sysattr v =
    hex_digit (v / 4096 % 16)
    ∷ hex_digit (v / 256 % 16)
    ∷ hex_digit (v / 16 % 16)
    ∷ hex_digit (v % 16)
    ∷ []

strtoul_hex-digits :
    (a b c d : ℕ)
    → a < 16
    → b < 16
    → c < 16
    → d < 16
    → strtoul_hex (hex_digit a ∷ hex_digit b ∷ hex_digit c ∷ hex_digit d ∷ [])
      ≡ ((a * 16 + b) * 16 + c) * 16 + d
unfolding strtoul_hex
strtoul_hex-digits a b c d pa pb pc pd =
    rw
      (
        skip_spaces-hex a (hex_digit b ∷ hex_digit c ∷ hex_digit d ∷ []) pa,
        sign-hex a (hex_digit b ∷ hex_digit c ∷ hex_digit d ∷ []) pa,
        hex_prefix-hex a b (hex_digit c ∷ hex_digit d ∷ []) pb,
        starts_digit-hex a (hex_digit b ∷ hex_digit c ∷ hex_digit d ∷ []) pa,
        scan_digits-hex 0 a (hex_digit b ∷ hex_digit c ∷ hex_digit d ∷ []) pa,
        scan_digits-hex (0 * 16 + a) b (hex_digit c ∷ hex_digit d ∷ []) pb,
        scan_digits-hex ((0 * 16 + a) * 16 + b) c (hex_digit d ∷ []) pc,
        scan_digits-hex (((0 * 16 + a) * 16 + b) * 16 + c) d [] pd,
        scan_digits-nil,
      )
      (omega arith)

pub strtoul_hex-sysattr : (v : ℕ) → v < 2 ^ 16 → strtoul_hex (sysattr v) ≡ v
strtoul_hex-sysattr v h =
    strtoul_hex-digits (v / 4096 % 16) (v / 256 % 16) (v / 16 % 16) (v % 16) (omega arith)
      (omega arith) (omega arith) (omega arith)
    ∙ omega arith

abbrev digits : (a b c d : ℕ) → Text
digits a b c d = hex_digit a ∷ hex_digit b ∷ hex_digit c ∷ hex_digit d ∷ []

digits-cong :
    (a b c d a' b' c' d' : ℕ)
    → a ≡ a'
    → b ≡ b'
    → c ≡ c'
    → d ≡ d'
    → digits a b c d ≡ digits a' b' c' d'
digits-cong a b c d a' b' c' d' p q r s = rw (p, q, r, s) refl

hex_digits-last : (f n : ℕ) → n < 16 → hex_digits (suc f) n ≡ hex_digit n ∷ []
unfolding hex_digits
hex_digits-last f n h = ground arith

hex_digits-more :
    (f n : ℕ) → 16 ≤ n → hex_digits (suc f) n ≡ hex_digits f (n / 16) ++ hex_digit (n % 16) ∷ []
unfolding hex_digits
hex_digits-more f n h = ground arith

four_digits-sysattr : (v : ℕ) → v < 2 ^ 16 → four_digits v ≡ sysattr v
unfolding four_digits
four_digits-sysattr v h = elim (dec_lt v 16) [
  | yes p ↦
      rw (hex_digits-last 15 v p)
        (digits-cong 0 0 0 v _ _ _ _ (omega arith) (omega arith) (omega arith) (omega arith))
  | no k ↦ elim (dec_lt v 256) [
    | yes p ↦
        rw (hex_digits-more 15 v (omega arith), hex_digits-last 14 (v / 16) (omega arith))
          (digits-cong 0 0 (v / 16) (v % 16) _ _ _ _ (omega arith) (omega arith) (omega arith)
            (omega arith))
    | no k ↦ elim (dec_lt v 4096) [
      | yes p ↦
          rw
            (
              hex_digits-more 15 v (omega arith),
              hex_digits-more 14 (v / 16) (omega arith),
              hex_digits-last 13 (v / 16 / 16) (omega arith),
            )
            (digits-cong 0 (v / 16 / 16) (v / 16 % 16) (v % 16) _ _ _ _ (omega arith) (omega arith)
              (omega arith) (omega arith))
      | no k ↦
          rw
            (
              hex_digits-more 15 v (omega arith),
              hex_digits-more 14 (v / 16) (omega arith),
              hex_digits-more 13 (v / 16 / 16) (omega arith),
              hex_digits-last 12 (v / 16 / 16 / 16) (omega arith),
            )
            (digits-cong (v / 16 / 16 / 16) (v / 16 / 16 % 16) (v / 16 % 16) (v % 16) _ _ _ _
              (omega arith) (omega arith) (omega arith) (omega arith))
    ]
  ]
]

-- The section of a device has the name that the two identifiers spell.
pub hwid-sysattr : (v w : ℕ) → v < 2 ^ 16 → w < 2 ^ 16 → hwid v w ≡ sysattr v ++ sysattr w
unfolding hwid
hwid-sysattr v w hv hw = rw (four_digits-sysattr v hv, four_digits-sysattr w hw) refl

-- ===== src/Joystick/Storage/Names.antt =====
-- No name that is put into the file of the joystick holds a dot.
use sws.Base.{
  ◌≡◌, refl, ℕ, zero, suc, ◌+◌, ◌-◌, ◌/◌, ◌%◌, ◌==◌, ltb, length, arith, false, ◌||◌, if◌then◌else◌,
  [], ◌∷◌, ◌++◌, replicate, Text,
}
use sws.Ptree.{has_dot}
use sws.Joystick.Actions.{Action, actions, enum_to_string}
use sws.Joystick.Storage.{hex_digits, four_digits, hwid}

has_dot-append : (s t : Text) → has_dot (s ++ t) ≡ (has_dot s || has_dot t)
has_dot-append [] t = refl
has_dot-append (c ∷ s) t = ground (arith, has_dot-append s t)

has_dot-hex_digits : (fuel n : ℕ) → has_dot (hex_digits fuel n) ≡ false
unfolding hex_digits
has_dot-hex_digits zero n = refl
has_dot-hex_digits (suc fuel) n =
    let h = has_dot-hex_digits fuel (n / 16) in
    let d = (if ltb (n % 16) 10 then n % 16 + 48 else n % 16 + 87) in
    let e : (d == 46) ≡ false = ground arith in
    ground (arith, has_dot-append (hex_digits fuel (n / 16)) (d ∷ []), h, e)

has_dot-zeros : (n : ℕ) → has_dot (replicate n 48) ≡ false
has_dot-zeros zero = refl
has_dot-zeros (suc n) = has_dot-zeros n

has_dot-four_digits : (n : ℕ) → has_dot (four_digits n) ≡ false
unfolding four_digits
has_dot-four_digits n =
    let t = hex_digits 16 n in
    rw (has_dot-append (replicate (4 - length t) 48) t, has_dot-zeros (4 - length t))
      (has_dot-hex_digits 16 n)

pub has_dot-hwid : (vid pid : ℕ) → has_dot (hwid vid pid) ≡ false
unfolding hwid
has_dot-hwid vid pid =
    rw (has_dot-append (four_digits vid) (four_digits pid), has_dot-four_digits vid)
      (has_dot-four_digits pid)

pub has_dot-enum_to_string : (a : Action) → has_dot (enum_to_string a) ≡ false
unfolding enum_to_string actions
has_dot-enum_to_string Action.noop = refl
has_dot-enum_to_string _ = refl

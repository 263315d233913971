-- ===== src/Joystick/Config.antt =====
-- The settings that `load_config` makes of a section.
use sws.Base.{
  ◌≡◌, refl, true, Option, none, some, List, [], ◌∷◌, if◌then◌else◌, arith, Text, ℤ, Option-cases,
  inl, inr,
}
use sws.Base.Texts.{ℤ}
use sws.Joystick.Actions.{Action, actions, find}
use sws.Joystick.{Settings, at, same_int, load_settings}

-- The action of the first entry of the section that has the number and a known name.
unfoldable pub first_setting : ℤ → List (Text × ℤ) → Option Action
first_setting key [] = none
first_setting key ((name, k) ∷ js) =
    let rest = first_setting key js in
    if same_int k key then elim (find name actions) [ none ↦ rest | some a ↦ some a ] else rest

abbrev or_else : Option Action → Option Action → Option Action
or_else none b = b
or_else (some a) b = some a

same_int→eq : (a b : ℤ) → same_int a b ≡ true → a ≡ b
same_int→eq (ℤ.pos a) (ℤ.pos b) h = ground arith
same_int→eq (ℤ.pos a) (ℤ.negsuc b) h = ground arith
same_int→eq (ℤ.negsuc a) (ℤ.pos b) h = ground arith
same_int→eq (ℤ.negsuc a) (ℤ.negsuc b) h = ground arith

or_else-none : (o : Option Action) → o ≡ or_else o none
or_else-none none = refl
or_else-none (some a) = refl

at-cons :
    (k key : ℤ) (a : Action) (s : Settings)
    → at ((k, a) ∷ s) key ≡ (if same_int k key then some a else at s key)
unfolding at
at-cons k key a s = refl

load_settings-or_else :
    (s : Settings) (js : List (Text × ℤ)) (key : ℤ)
    → at (load_settings s js) key ≡ or_else (at s key) (first_setting key js)
unfolding load_settings first_setting
load_settings-or_else s [] key = or_else-none (at s key)
load_settings-or_else s ((name, k) ∷ js) key = elim (Option-cases (find name actions)) [
  | inl e ↦ ground (arith, load_settings-or_else s js key)
  | inr (a, e) ↦ elim (Option-cases (at s k)) [
    | inl f ↦
        ground
          (arith, load_settings-or_else ((k, a) ∷ s) js key, at-cons k key a s, same_int→eq k key)
    | inr (b, f) ↦ ground (arith, load_settings-or_else s js key, same_int→eq k key)
  ]
]

-- A number stands for the action of the first entry of the section that has it, among those whose
-- name is known; the other entries have no effect.
pub at-load_settings :
    (js : List (Text × ℤ)) (key : ℤ) → at (load_settings [] js) key ≡ first_setting key js
unfolding at
at-load_settings js key = load_settings-or_else [] js key

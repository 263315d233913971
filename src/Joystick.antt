-- ===== src/Joystick.antt =====
-- src/joystick.cpp and include/joystick.h: from the events of the device to the actions that the
-- player is told of.
pub mod Actions
pub mod Press
pub mod Config
pub mod Plug
pub mod Bounds
pub mod Storage
pub mod Udev
use sws.Base.{
  ℕ, ◌+◌, ◌-◌, ◌%◌, ◌^◌, Bool, true, false, ◌&&◌, ◌||◌, not, Option, none, some, List, [], ◌∷◌,
  if◌then◌else◌, ◌==◌, ltb, leb, length, take, get_or, set, Text, same, codes, ℤ, replicate,
}
use sws.Base.Texts.{ℤ}
use Actions.{Action, actions}

abbrev pub min_pressed : ℕ
min_pressed = 100

abbrev pub long_press : ℕ
long_press = 2000

abbrev pub max_pressed : ℕ
max_pressed = 10000

-- `js_value`: a __u32, a __s16 and two __u8.
pub record JsValue : Type 0 where
  pub time : ℕ
  pub value : ℤ
  pub type : ℕ
  pub button : ℕ

abbrev pub same_int : ℤ → ℤ → Bool
same_int (ℤ.pos a) (ℤ.pos b) = a == b
same_int (ℤ.pos a) (ℤ.negsuc b) = false
same_int (ℤ.negsuc a) (ℤ.pos b) = false
same_int (ℤ.negsuc a) (ℤ.negsuc b) = a == b

-- `std::map<int, ACTION_TYPE>`
abbrev pub Settings : Type 0
Settings = List (ℤ × Action)

-- `settings.at(key)`, none where it throws.
unfoldable pub at : Settings → ℤ → Option Action
at [] key = none
at ((k, a) ∷ s) key = if same_int k key then some a else at s key

-- The arrays of `monitor`.
pub record Monitor : Type 0 where
  pub p : List Bool
  pub time_pressed : List ℕ

unfoldable pub initial : Monitor
initial = record { p = replicate 24 false; time_pressed = replicate 24 0 }

-- What one round of the loop does: it goes on, with the action of a call of `set_event` if there is
-- one; it reads or writes outside an array; or the exception of `settings.at` ends the thread.
pub data Outcome : Type 0 where
  goes_on : Monitor → Option Action → Outcome
  out_of_bounds : Outcome
  out_of_range : Monitor → Outcome

-- `set_event(settings.at(key))`
unfoldable pub fire : Settings → Monitor → ℕ → Outcome
unfolding at
fire settings m key = elim (at settings (ℤ.pos key)) [
  | none ↦ out_of_range m
  | some a ↦ goes_on m (some a)
]

-- Both are __u32: the difference wraps.
abbrev pub elapsed : ℕ → ℕ → ℕ
elapsed now then_ = (now + 2 ^ 32 - then_) % 2 ^ 32

unfoldable pub press : Monitor → JsValue → Outcome
press m j =
    if ltb j.button 24
    then goes_on
        (record m { p = set m.p j.button true; time_pressed = set m.time_pressed j.button j.time })
        none
    else out_of_bounds

unfoldable pub release : Settings → Monitor → JsValue → Outcome
unfolding fire
release settings m j =
    let m' = record m { p = set m.p j.button false } in
    let time = elapsed j.time (get_or m.time_pressed j.button 0) in
    if not (ltb j.button 24)
    then out_of_bounds
    else if not (get_or m.p j.button false)
    then goes_on m none
    else if ltb max_pressed time
    then goes_on m' none
    else if ltb long_press time
    then fire settings m' (j.button + 100)
    else if ltb min_pressed time
    then fire settings m' j.button
    else goes_on m' none

unfoldable pub axis : Settings → Monitor → JsValue → Outcome
unfolding fire
axis settings m j =
    if same_int j.value (ℤ.pos 32767)
    then fire settings m (j.button + 200)
    else if same_int j.value (ℤ.negsuc 32766)
    then fire settings m (j.button + 300)
    else goes_on m none

-- The body of the loop of `monitor`, for an event that was read.
unfoldable pub monitor : Settings → Monitor → JsValue → Outcome
unfolding press release axis
monitor settings m j =
    if j.type == 1
    then if same_int j.value (ℤ.pos 1)
      then press m j
      else if same_int j.value (ℤ.pos 0)
      then release settings m j
      else goes_on m none
    else if j.type == 2
    then axis settings m j
    else goes_on m none

-- The variables that `js_plug` sets, the name of the settings that `load_config` would take, and how
-- often it was called.
pub record Device : Type 0 where
  pub dev_path : Text
  pub vendor_id : ℕ
  pub product_id : ℕ
  pub reconnects : ℕ
  pub loads : ℕ

-- `js_plug`, for a device with the action, the node and the identifiers that udev gives.
unfoldable pub js_plug : Device → (action devnode : Text) → (ven pro : ℕ) → Device
js_plug d action devnode ven pro =
    let opened = record d { dev_path = devnode; reconnects = d.reconnects + 1 } in
    let loaded = record opened { vendor_id = ven; product_id = pro; loads = d.loads + 1 } in
    if same action (codes "add") && same (take 13 devnode) (codes "/dev/input/js")
    then (if not (ven == 0) && not (pro == 0)
        then (if not (ven == d.vendor_id) && not (pro == d.product_id) then loaded else opened)
        else opened)
    else d

-- The loop of `load_config` over the names and numbers of a device's section. `map::insert` keeps
-- the entry that a key has.
unfoldable pub load_settings : Settings → List (Text × ℤ) → Settings
load_settings settings [] = settings
load_settings settings ((name, key) ∷ js) =
    load_settings
      (elim (Actions.find name actions) [
        | none ↦ settings
        | some a ↦ elim (at settings key) [ none ↦ (key, a) ∷ settings | some b ↦ settings ]
      ])
      js

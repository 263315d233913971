-- ===== src/Joystick/Udev.antt =====
-- src/joystick.cpp, what udev tells: `process_udev`, the loop of `monitor_udev_thread`, and
-- `get_hwids_by_path`, with which `load_config` begins.
--
-- What udev answers is a parameter. The result is none where a NULL pointer is read as a text.
pub mod SameVendor
pub mod Section
pub mod Listed
use sws.Base.{
  ℕ, Bool, ◌&&◌, not, ◌||◌, ◌==◌, ltb, Option, none, some, List, [], ◌∷◌, if◌then◌else◌, Text,
  codes, same, take, ◌>>=◌,
}
use sws.Util.CString.{strtoul_hex}
use sws.Joystick.{Device, js_plug}

-- A device: `udev_device_get_action`, `udev_device_get_devnode`, and the texts of "idVendor" and
-- "idProduct" of its parent on the USB, each of which can be NULL.
pub record UdevDevice : Type 0 where
  pub action : Option Text
  pub devnode : Option Text
  pub id_vendor : Option Text
  pub id_product : Option Text

-- `js_plug` from the device on: the identifiers are asked for once it is known to be an added joystick.
unfoldable pub plug : Device → UdevDevice → Text → Option Device
plug d dev node = elim dev.action [
  | none ↦ none
  | some action ↦
      if same action (codes "add") && same (take 13 node) (codes "/dev/input/js")
      then (do
        ven ← dev.id_vendor
        pro ← dev.id_product
        some (js_plug d action node (strtoul_hex ven) (strtoul_hex pro)))
      else some d
]

unfoldable pub process_udev : Device → Option UdevDevice → Option Device
process_udev d none = some d
process_udev d (some dev) = elim dev.devnode [ none ↦ some d | some node ↦ plug d dev node ]

-- The return of `select`: it failed, or a device can be received.
pub data Selected : Type 0 where
  ended : Selected
  ready : Option UdevDevice → Selected

-- The loop, over the returns of `select`; behind the last one it waits.
unfoldable pub monitor_udev_thread : Device → List Selected → Option Device
monitor_udev_thread d [] = some d
monitor_udev_thread d (ended ∷ rs) = some d
monitor_udev_thread d (ready dev ∷ rs) = do d' ← process_udev d dev; monitor_udev_thread d' rs

-- The body of the loop over the devices that there are: the identifiers found so far.
unfoldable pub hwids_of : Text → UdevDevice → ℕ × ℕ → Option (ℕ × ℕ)
hwids_of path dev ids = elim dev.devnode [
  | none ↦ some ids
  | some c ↦
      if same c path
      then (do
        ven ← dev.id_vendor
        pro ← dev.id_product
        let v = strtoul_hex ven
        let p = strtoul_hex pro
        some (if ltb 0 v && ltb 0 p then (v, p) else ids))
      else some ids
]

unfoldable pub find_hwids : Text → List UdevDevice → ℕ × ℕ → Option (ℕ × ℕ)
find_hwids path [] ids = some ids
find_hwids path (dev ∷ devs) ids = do found ← hwids_of path dev ids; find_hwids path devs found

unfoldable pub get_hwids_by_path : Text → List UdevDevice → Option (ℕ × ℕ)
unfolding find_hwids
get_hwids_by_path path devs = find_hwids path devs (0, 0)

-- The first lines of `load_config`: unknown identifiers are looked for.
unfoldable pub identify : Device → List UdevDevice → Option Device
identify d devs =
    if (d.vendor_id == 0) || (d.product_id == 0)
    then (do
      ids ← get_hwids_by_path d.dev_path devs
      some (record d { vendor_id = ids.0; product_id = ids.1 }))
    else some d

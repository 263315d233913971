-- ===== src/Joystick/Udev/SameVendor.antt =====
-- Joysticks of one vendor, plugged in one after the other.
use sws.Base.{
  ℕ, ◌+◌, ◌≡◌, ◌≢◌, refl, inl, ◌∙◌, Option, none, some, List, [], ◌∷◌, Text, codes, same_iff, take,
  arith, length, ap,
}
use sws.Util.CString.{strtoul_hex}
use sws.Joystick.{Device}
use sws.Joystick.Plug.{IsJoystick, js_plug-keeps}
use sws.Joystick.Udev.{UdevDevice, plug, process_udev, Selected, ready, monitor_udev_thread}

-- An added joystick as udev tells of it.
pub record Plugged : Type 0 where
  pub node : Text
  pub id_vendor : Text
  pub id_product : Text

abbrev pub device_of : Plugged → UdevDevice
device_of j = record {
  action = some (codes "add");
  devnode = some j.node;
  id_vendor = some j.id_vendor;
  id_product = some j.id_product;
}

abbrev pub selections : List Plugged → List Selected
selections [] = []
selections (j ∷ js) = ready (some (device_of j)) ∷ selections js

-- Its identifiers are numbers, and the vendor is this one.
abbrev pub IsOf : ℕ → Plugged → Type 0
IsOf v j =
    IsJoystick (codes "add") j.node (strtoul_hex j.id_vendor) (strtoul_hex j.id_product)
    × (strtoul_hex j.id_vendor ≡ v)

abbrev pub AllOf : ℕ → List Plugged → Type 0
AllOf v [] = Unit
AllOf v (j ∷ js) = IsOf v j × AllOf v js

-- The node of the last one.
abbrev pub last_node : Text → List Plugged → Text
last_node path [] = path
last_node path (j ∷ js) = last_node j.node js

plug-keeps :
    (d : Device) (j : Plugged)
    → IsOf d.vendor_id j
    → process_udev d (some (device_of j))
      ≡ some (record d { dev_path = j.node; reconnects = d.reconnects + 1 })
unfolding process_udev plug sws.Base.same
plug-keeps d j (a, e) =
    rw ((same_iff (take 13 j.node) (codes "/dev/input/js")).1 a.node)
      (ap some (js_plug-keeps d (codes "add") j.node _ _ a (inl e)))

-- Once a joystick is remembered, every further one of the same vendor is opened, and none of them is
-- remembered or has its settings loaded, however many there are.
pub monitor_udev_thread-keeps :
    (d : Device) (js : List Plugged)
    → AllOf d.vendor_id js
    → monitor_udev_thread d (selections js)
      ≡ some
          (record d { dev_path = last_node d.dev_path js; reconnects = d.reconnects + length js })
unfolding monitor_udev_thread
monitor_udev_thread-keeps d [] h = ground arith
monitor_udev_thread-keeps d (j ∷ js) h =
    let d' : Device = record d { dev_path = j.node; reconnects = d.reconnects + 1 } in
    rw (plug-keeps d j h.0) (
      monitor_udev_thread-keeps d' js h.1
      ∙ ap (λ (n : ℕ). some (record d { dev_path = last_node j.node js; reconnects = n }))
          (omega arith))

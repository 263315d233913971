-- ===== src/Joystick/Plug.antt =====
-- When plugging a device loads its settings.
use sws.Base.{ℕ, ◌+◌, ◌≡◌, ◌≢◌, ◌⊎◌, true, take, arith, Text, same, codes, same_iff}
use sws.Joystick.{Device, js_plug}

-- A joystick that is added, and has identifiers.
pub record IsJoystick (action devnode : Text) (ven pro : ℕ) : Type 0 where
  pub added : action ≡ codes "add"
  pub node : take 13 devnode ≡ codes "/dev/input/js"
  pub vendor : ven ≢ 0
  pub product : pro ≢ 0

is_added :
    (d : Device) (action devnode : Text) (ven pro : ℕ)
    → IsJoystick action devnode ven pro
    → (same action (codes "add") ≡ true) × (same (take 13 devnode) (codes "/dev/input/js") ≡ true)
is_added d action devnode ven pro j = (
  (same_iff action (codes "add")).1 j.added,
  (same_iff (take 13 devnode) (codes "/dev/input/js")).1 j.node,
)

-- A joystick that differs from the last one in both its vendor and its product is remembered, and has
-- its settings loaded.
pub js_plug-loads :
    (d : Device) (action devnode : Text) (ven pro : ℕ)
    → IsJoystick action devnode ven pro
    → ven ≢ d.vendor_id
    → pro ≢ d.product_id
    → js_plug d action devnode ven pro ≡ record d {
      dev_path = devnode;
      vendor_id = ven;
      product_id = pro;
      reconnects = d.reconnects + 1;
      loads = d.loads + 1;
    }
unfolding js_plug
js_plug-loads d action devnode ven pro j v p =
    let (a, n) = is_added d action devnode ven pro j in rw (a, n) (ground arith)

-- A joystick that shares its vendor or its product with the last one is opened, but keeps the
-- settings of that one, and is not remembered.
pub js_plug-keeps :
    (d : Device) (action devnode : Text) (ven pro : ℕ)
    → IsJoystick action devnode ven pro
    → (ven ≡ d.vendor_id) ⊎ (pro ≡ d.product_id)
    → js_plug d action devnode ven pro
      ≡ record d { dev_path = devnode; reconnects = d.reconnects + 1 }
unfolding js_plug
js_plug-keeps d action devnode ven pro j e =
    let (a, n) = is_added d action devnode ven pro j in rw (a, n) (ground arith)

-- ===== src/Joystick/Udev/Listed.antt =====
-- `get_hwids_by_path` in a list where one device has the node of the joystick.
use sws.Base.{
  ℕ, ◌^◌, ◌<◌, ◌≡◌, ◌⊎◌, inl, inr, refl, none, some, List, [], ◌∷◌, ◌++◌, Text, same, same_refl,
  false, arith, ◌==◌, ◌||◌, true,
}
use sws.Joystick.{Device}
use sws.Joystick.Storage.{hwid}
use sws.Joystick.Udev.{UdevDevice, hwids_of, find_hwids, get_hwids_by_path, identify}
use sws.Joystick.Udev.Section.{sysattr, hwid-sysattr, strtoul_hex-sysattr}

-- A device of the list that has another node, or none.
abbrev pub IsOther : Text → UdevDevice → Type 0
IsOther path dev =
    (dev.devnode ≡ none) ⊎ ((c : Text) × (dev.devnode ≡ some c) × (same c path ≡ false))

abbrev pub AllOthers : Text → List UdevDevice → Type 0
AllOthers path [] = Unit
AllOthers path (dev ∷ devs) = IsOther path dev × AllOthers path devs

hwids_of-other :
    (path : Text) (dev : UdevDevice) (ids : ℕ × ℕ)
    → IsOther path dev
    → hwids_of path dev ids ≡ some ids
unfolding hwids_of
hwids_of-other path dev ids (inl e) = rw e refl
hwids_of-other path dev ids (inr (c, e, k)) = rw (e, k) refl

find_hwids-others :
    (path : Text) (devs : List UdevDevice) (ids : ℕ × ℕ)
    → AllOthers path devs
    → find_hwids path devs ids ≡ some ids
unfolding find_hwids
find_hwids-others path [] ids h = refl
find_hwids-others path (dev ∷ devs) ids h =
    rw (hwids_of-other path dev ids h.0) (find_hwids-others path devs ids h.1)

find_hwids-found :
    (path : Text) (xs : List UdevDevice) (dev : UdevDevice) (ys : List UdevDevice)
    (ids found : ℕ × ℕ)
    → AllOthers path xs
    → AllOthers path ys
    → ((i : ℕ × ℕ) → hwids_of path dev i ≡ some found)
    → find_hwids path (xs ++ dev ∷ ys) ids ≡ some found
unfolding find_hwids
find_hwids-found path [] dev ys ids found hx hy e = rw (e ids) (find_hwids-others path ys found hy)
find_hwids-found path (x ∷ xs) dev ys ids found hx hy e =
    rw (hwids_of-other path x ids hx.0) (find_hwids-found path xs dev ys ids found hx.1 hy e)

hwids_of-same :
    (path : Text) (dev : UdevDevice) (v w : ℕ) (ids : ℕ × ℕ)
    → dev.devnode ≡ some path
    → dev.id_vendor ≡ some (sysattr v)
    → dev.id_product ≡ some (sysattr w)
    → 0 < v
    → 0 < w
    → v < 2 ^ 16
    → w < 2 ^ 16
    → hwids_of path dev ids ≡ some (v, w)
unfolding hwids_of
hwids_of-same path dev v w ids e ev ew pv pw hv hw =
    rw (e, same_refl path, ev, ew, strtoul_hex-sysattr v hv, strtoul_hex-sysattr w hw)
      (ground arith)

-- Where the joystick's identifiers are not known, and exactly one device of udev's list has its node,
-- load_config takes the identifiers of that device, wherever in the list it is, and the section of the
-- settings is named by what udev shows of the two identifiers, four digits each; they are neither 0.
pub identify-sysattr :
    (d : Device) (xs : List UdevDevice) (dev : UdevDevice) (ys : List UdevDevice) (v w : ℕ)
    → ((d.vendor_id == 0) || (d.product_id == 0)) ≡ true
    → AllOthers d.dev_path xs
    → AllOthers d.dev_path ys
    → dev.devnode ≡ some d.dev_path
    → dev.id_vendor ≡ some (sysattr v)
    → dev.id_product ≡ some (sysattr w)
    → 0 < v
    → 0 < w
    → v < 2 ^ 16
    → w < 2 ^ 16
    → (identify d (xs ++ dev ∷ ys) ≡ some (record d { vendor_id = v; product_id = w }))
      × (hwid v w ≡ sysattr v ++ sysattr w)
unfolding identify get_hwids_by_path
identify-sysattr d xs dev ys v w u hx hy e ev ew pv pw hv hw = (
  rw
      (
        u,
        find_hwids-found d.dev_path xs dev ys (0, 0) (v, w) hx hy
            (λ i. hwids_of-same d.dev_path dev v w i e ev ew pv pw hv hw),
      )
      refl,
  hwid-sysattr v w hv hw,
)

-- ===== src/Tests/Joysticks.antt =====
-- A joystick that udev tells of, and clicks on it.
use sws.Base.{◌≡◌, refl, inl, arith, Option, none, some, List, [], ◌∷◌, ◌++◌, codes, Text}
use sws.Base.Texts.{ℤ}
use sws.Joystick.{Device, Settings, initial, Monitor, at, monitor}
use sws.Joystick.Actions.{Action}
use sws.Joystick.Press.{IsMonitor, down}
use sws.Joystick.Bounds.{IsBoundedBy, monitor-IsBoundedBy}
use sws.Joystick.Storage.{hwid}
use sws.Joystick.Udev.{UdevDevice, monitor_udev_thread, identify}
use sws.Joystick.Udev.SameVendor.{Plugged, selections, IsOf, monitor_udev_thread-keeps}
use sws.Joystick.Udev.Section.{sysattr, strtoul_hex-sysattr}
use sws.Joystick.Udev.Listed.{identify-sysattr}
use sws.Player
use sws.Player.{Player}
use sws.Player.Steps.{next_times}
use sws.Control.Drive.{drive}
use sws.Control.Drive.Clicks.{Click, IsShort, events, drive-clicks}
use sws.Tests.Players.{second, world}

abbrev device : Device
device = record {
  dev_path = codes "/dev/input/js0";
  vendor_id = 1118;
  product_id = 654;
  reconnects = 1;
  loads = 1;
}

-- A second pad of the same vendor.
abbrev second_pad : Plugged
second_pad = record {
  node = codes "/dev/input/js1";
  id_vendor = sysattr 1118;
  id_product = sysattr 721;
}

second_pad-IsOf : IsOf 1118 second_pad
second_pad-IsOf =
    let ven = strtoul_hex-sysattr 1118 (omega arith) in
    let pro = strtoul_hex-sysattr 721 (omega arith) in
    (
      record {
        added = refl;
        node = refl;
        vendor = omega (arith, ven);
        product = omega (arith, pro);
      },
      ven,
    )

monitor_udev_thread-keeps_example :
    monitor_udev_thread device (selections (second_pad ∷ []))
    ≡ some (record device { dev_path = codes "/dev/input/js1"; reconnects = 2 })
monitor_udev_thread-keeps_example =
    monitor_udev_thread-keeps device (second_pad ∷ []) (second_pad-IsOf, _)

abbrev unknown : Device
unknown = record device { vendor_id = 0; product_id = 0 }

abbrev listed : Option Text → UdevDevice
listed node = record {
  action = none;
  devnode = node;
  id_vendor = some (sysattr 1118);
  id_product = some (sysattr 654);
}

identify-sysattr_example :
    (identify unknown (listed none ∷ listed (some (codes "/dev/input/js0")) ∷ []) ≡ some device)
    × (hwid 1118 654 ≡ sysattr 1118 ++ sysattr 654)
identify-sysattr_example =
    identify-sysattr unknown (listed none ∷ []) (listed (some (codes "/dev/input/js0"))) [] 1118 654
      refl (inl refl, _) _ refl refl refl (omega arith) (omega arith) (omega arith) (omega arith)

abbrev settings : Settings
settings = (ℤ.pos 3, Action.next) ∷ []

initial-IsMonitor : IsMonitor initial
unfolding initial
initial-IsMonitor = (refl, refl)

abbrev clicks : List Click
clicks = record { time = 1000; held = 500 } ∷ record { time = 2000; held = 300 } ∷ []

first_click : IsShort (record { time = 1000; held = 500 })
first_click = record { clock = omega arith; counted = omega arith; not_long = omega arith }

second_click : IsShort (record { time = 2000; held = 300 })
second_click = record { clock = omega arith; counted = omega arith; not_long = omega arith }

drive-clicks_example :
    (m' : Monitor) × (q : Player) × (drive world settings initial second (events 3 clicks)
      ≡ some (m', q))
    × (next_times world 2 second ≡ some q)
    × (q.it_track ≡ Player.at 0)
unfolding at
drive-clicks_example =
    drive-clicks world settings 3 clicks initial second 1 (omega arith) refl initial-IsMonitor
      (first_click, (second_click, _)) refl refl (omega arith)

-- A button that the arrays have no element for.
monitor-IsBoundedBy_example :
    IsBoundedBy settings (down 24 1000) (monitor settings initial (down 24 1000))
monitor-IsBoundedBy_example = monitor-IsBoundedBy settings (down 24 1000) initial initial-IsMonitor

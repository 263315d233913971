-- ===== src/Tests/Bluetooths.antt =====
-- Devices on the D-Bus.
use sws.Base.{ℕ, true, false, List, [], ◌∷◌, codes, Text}
use sws.Bluetooth.{Device, string, boolean, strings, Object}
use sws.Util.Uuid.Text.{uuid_text}

abbrev memory : Text → Device
memory path = record {
  id = [];
  name = [];
  bclass = 9;
  paired = true;
  connected = true;
  trusted = true;
}

abbrev objects : List Object
objects =
    record { path = codes "/org/bluez/hci0"; interfaces = [] }
    ∷ record {
      path = codes "/org/bluez/hci0/dev_00";
      interfaces =
          record {
            name = codes "org.bluez.Device1";
            properties =
                (codes "Address", string (codes "00:11"))
                ∷ (codes "Paired", boolean false)
                ∷ (codes "UUIDs", strings (uuid_text 0x110b ∷ []))
                ∷ [];
          }
          ∷ [];
    }
    ∷ []

abbrev parent : Object
parent = record {
  path = codes "/org/bluez/hci0/dev_00";
  interfaces =
      record {
        name = codes "org.bluez.Device1";
        properties = (codes "Address", string (codes "00:11")) ∷ [];
      }
      ∷ [];
}

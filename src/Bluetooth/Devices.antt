-- ===== src/Bluetooth/Devices.antt =====
-- The devices that src/bluetooth.cpp makes of an answer, described property by property.
use sws.Base.{
  ℕ, Bool, true, false, ◌&&◌, none, some, List, [], ◌∷◌, ◌++◌, if◌then◌else◌, Text, codes, same,
}
use sws.Bluetooth.{
  Device, Variant, string, uint32, boolean, strings, other, Interface, Object, uuid_to_str,
  is_device_path, unnamed,
}

-- The last value of the type under a key, or a default.
abbrev pub last_text : Text → List (Text × Variant) → Text → Text
last_text k [] t = t
last_text k ((key, string v) ∷ ps) t = last_text k ps (if same key k then v else t)
last_text k ((key, v) ∷ ps) t = last_text k ps t

abbrev pub last_number : Text → List (Text × Variant) → ℕ → ℕ
last_number k [] n = n
last_number k ((key, uint32 v) ∷ ps) n = last_number k ps (if same key k then v else n)
last_number k ((key, v) ∷ ps) n = last_number k ps n

abbrev pub last_flag : Text → List (Text × Variant) → Bool → Bool
last_flag k [] b = b
last_flag k ((key, boolean v) ∷ ps) b = last_flag k ps (if same key k then v else b)
last_flag k ((key, v) ∷ ps) b = last_flag k ps b

-- The device with these properties, over the memory that it is made in.
abbrev pub device_of : List (Text × Variant) → Device → Device
device_of ps d = record {
  id = last_text (codes "Address") ps d.id;
  name = last_text (codes "Name") ps d.name;
  bclass = last_number (codes "Class") ps d.bclass;
  paired = last_flag (codes "Paired") ps d.paired;
  connected = last_flag (codes "Connected") ps d.connected;
  trusted = last_flag (codes "Trusted") ps d.trusted;
}

-- Whether all identifiers have a name, and whether no property ends the program.
abbrev pub named_all : List Text → Bool
named_all [] = true
named_all (s ∷ uuids) = elim (uuid_to_str s) [ none ↦ false | some str ↦ named_all uuids ]

abbrev pub is_harmless : Text → Variant → Bool
is_harmless key (strings uuids) = if same key (codes "UUIDs") then named_all uuids else true
is_harmless key other = if same key (codes "UUIDs") then false else true
is_harmless key v = true

abbrev pub all_harmless : List (Text × Variant) → Bool
all_harmless [] = true
all_harmless ((key, v) ∷ ps) = is_harmless key v && all_harmless ps

-- The properties of the interface "org.bluez.Device1" of an object.
abbrev pub device_properties : List Interface → List (Text × Variant)
device_properties [] = []
device_properties (i ∷ is) =
    (if same i.name (codes "org.bluez.Device1") then i.properties else []) ++ device_properties is

-- Whether no object of a device ends the program, and the devices of the objects in their order.
abbrev pub is_readable : List Object → Bool
is_readable [] = true
is_readable (o ∷ os) =
    (if is_device_path o.path then all_harmless (device_properties o.interfaces) else true)
    && is_readable os

abbrev pub devices : (Text → Device) → List Object → List Device
devices raw [] = []
devices raw (o ∷ os) =
    (if is_device_path o.path
      then device_of (device_properties o.interfaces) (unnamed (raw o.path)) ∷ []
      else [])
    ++ devices raw os

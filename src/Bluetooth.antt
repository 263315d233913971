-- ===== src/Bluetooth.antt =====
-- src/bluetooth.cpp, bt_device.h: the devices that `bluetooth::read` makes of what BlueZ answers on
-- the D-Bus, and `uuid_to_str`.
--
-- The answer of GetManagedObjects is a parameter. The result is none where the program ends: by the
-- assertion that there was no error, or by the exception of a text that is made from a NULL pointer.
pub mod Devices
pub mod Children
use sws.Base.{
  ℕ, Bool, false, ◌&&◌, Option, none, some, List, [], ◌∷◌, ◌++◌, if◌then◌else◌, Text, codes, same,
  take, drop, leb, String, ◌>>=◌,
}
use sws.Util.Uuid.{bt_uuidstr_to_str}

-- `bt_device`, but for the members that nothing reads.
pub record Device : Type 0 where
  pub id : Text
  pub name : Text
  pub bclass : ℕ
  pub paired : Bool
  pub connected : Bool
  pub trusted : Bool

-- A value of D-Bus, by the types that `read` asks for: "s", "u", "b", "as", and all others.
pub data Variant : Type 0 where
  string : Text → Variant
  uint32 : ℕ → Variant
  boolean : Bool → Variant
  strings : List Text → Variant
  other : Variant

pub record Interface : Type 0 where
  pub name : Text
  pub properties : List (Text × Variant)

-- An object of the answer.
pub record Object : Type 0 where
  pub path : Text
  pub interfaces : List Interface

unfoldable pub uuid_to_str : Text → Option Text
uuid_to_str uuid = elim (bt_uuidstr_to_str (some uuid)) [ none ↦ none | some c ↦ some (codes c) ]

-- The loop that prints the names of the identifiers: what it prints.
unfoldable pub print_uuids : List Text → Option (List Text)
print_uuids [] = some []
print_uuids (s ∷ uuids) = do
  str ← uuid_to_str s
  lines ← print_uuids uuids
  some ((s ++ (codes ": " ++ str)) ∷ lines)

-- "[0-9]" at the head of a text
abbrev pub starts_with_digit : Text → Bool
starts_with_digit [] = false
starts_with_digit (c ∷ t) = leb b'0' c && leb c b'9'

-- `regex_search` with "^/org/bluez/hci[0-9]/dev_"
unfoldable pub is_device_path : Text → Bool
unfolding same
is_device_path s =
    same (take 14 s) (codes "/org/bluez/hci")
    && (starts_with_digit (drop 14 s) && same (take 5 (drop 15 s)) (codes "/dev_"))

-- The three tests on a boolean.
unfoldable pub set_flag : Text → Bool → Device → Device
unfolding same
set_flag key b d =
    let d = if same key (codes "Paired") then record d { paired = b } else d in
    let d = if same key (codes "Connected") then record d { connected = b } else d in
    if same key (codes "Trusted") then record d { trusted = b } else d

-- The body of the loop over the properties of "org.bluez.Device1". A value under "UUIDs" that is no
-- list of texts is read as one, which GLib does not allow.
unfoldable pub set_property : Text → Variant → Device → Option Device
unfolding same set_flag
set_property key (string v) d = some (
    if same key (codes "Address")
    then record d { id = v }
    else if same key (codes "Name")
    then record d { name = v }
    else d)
set_property key (uint32 v) d =
    some (if same key (codes "Class") then record d { bclass = v } else d)
set_property key (boolean b) d = some (set_flag key b d)
set_property key (strings uuids) d =
    if same key (codes "UUIDs") then (do lines ← print_uuids uuids; some d) else some d
set_property key other d = if same key (codes "UUIDs") then none else some d

unfoldable pub set_properties : List (Text × Variant) → Device → Option Device
set_properties [] d = some d
set_properties ((key, v) ∷ ps) d = do d' ← set_property key v d; set_properties ps d'

unfoldable pub read_interfaces : List Interface → Device → Option Device
unfolding same
read_interfaces [] d = some d
read_interfaces (i ∷ is) d =
    (if same i.name (codes "org.bluez.Device1") then set_properties i.properties d else some d)
    >>= λ d'. read_interfaces is d'

-- A new `bt_device` in some memory: its numbers and flags are not set.
abbrev pub unnamed : Device → Device
unnamed raw = record raw { id = []; name = [] }

-- `raw` is the memory of the device for an object.
module _ (raw : Text → Device) where
  -- The body of the loop over the objects.
  unfoldable pub read_object : Object → List Device → Option (List Device)
  read_object o devices =
      if is_device_path o.path
      then (do d ← read_interfaces o.interfaces (unnamed (raw o.path)); some (devices ++ d ∷ []))
      else some devices

  unfoldable pub read_objects : List Object → List Device → Option (List Device)
  read_objects [] devices = some devices
  read_objects (o ∷ os) devices = do ds ← read_object o devices; read_objects os ds

  -- `read()`: `bt_devices` after it. The constructor calls it, once.
  unfoldable pub read : Option (List Object) → Option (List Device)
  read none = none
  read (some os) = read_objects os []

-- ===== src/Util/Uuid.antt =====
-- src/util.c, the names of Bluetooth identifiers: the tables, and `bt_uuid16_to_str`,
-- `bt_uuid32_to_str` and `bt_uuidstr_to_str`, the one of them that src/bluetooth.cpp calls.
mod Protocols
mod Attributes
mod Characteristics
mod Vendors
mod Members
mod Named
pub mod Lookup
pub mod Text
pub mod Entries
use sws.Base.{
  ℕ, ◌-◌, ◌*◌, ◌%◌, ◌/◌, ◌^◌, String, not, Option, none, some, List, [], ◌∷◌, ◌++◌, ◌==◌, ltb,
  if◌then◌else◌, length, take, drop, codes,
}
use sws.Util.CString.{strtol, sscanf_x8, equal_nocase}
use Protocols.{protocol_uuids}
use Attributes.{attribute_uuids}
use Characteristics.{characteristic_uuids}
use Vendors.{vendor_uuids}
use Members.{member_uuids}
unfoldable pub use Named.{uuid128_table}

-- `uuid16_table`, without the empty entry that ends it.
unfoldable pub uuid16_table : List (ℕ × String)
unfolding protocol_uuids attribute_uuids characteristic_uuids vendor_uuids member_uuids
uuid16_table =
    protocol_uuids ++ (attribute_uuids ++ (characteristic_uuids ++ (vendor_uuids ++ member_uuids)))

-- The loop of `bt_uuid16_to_str`, over the rest of the table.
unfoldable pub find_uuid16 : ℕ → List (ℕ × String) → String
find_uuid16 uuid [] = "Unknown"
find_uuid16 uuid ((k, str) ∷ table) = if k == uuid then str else find_uuid16 uuid table

unfoldable pub bt_uuid16_to_str : ℕ → String
unfolding find_uuid16 uuid16_table
bt_uuid16_to_str uuid = find_uuid16 uuid uuid16_table

-- `uuid & 0xffff0000` and `uuid & 0x0000ffff`
abbrev pub high_half : ℕ → ℕ
high_half v = v / 2 ^ 16 * 2 ^ 16

abbrev pub low_half : ℕ → ℕ
low_half v = v % 2 ^ 16

unfoldable pub bt_uuid32_to_str : ℕ → String
unfolding bt_uuid16_to_str
bt_uuid32_to_str uuid = if high_half uuid == 0 then bt_uuid16_to_str (low_half uuid) else "Unknown"

-- The loop of `bt_uuidstr_to_str` over `uuid128_table`.
unfoldable pub find_uuid128 : List ℕ → List (String × String) → Option String
unfolding equal_nocase
find_uuid128 uuid [] = none
find_uuid128 uuid ((k, str) ∷ table) =
    if equal_nocase (codes k) uuid then some str else find_uuid128 uuid table

-- What follows the first eight digits of an identifier of the Bluetooth SIG.
abbrev pub base_suffix : List ℕ
base_suffix = codes "-0000-1000-8000-00805f9b34fb"

-- A text of less than 36 bytes is a number. `val` is a uint32_t, so the long is cut to 32 bits.
unfoldable pub short_uuid_to_str : List ℕ → Option String
short_uuid_to_str uuid =
    let (long, rest) = strtol uuid in
    let val = long % 2 ^ 32 in
    if length rest == 0
    then some (if ltb (2 ^ 16 - 1) val then bt_uuid32_to_str val else bt_uuid16_to_str val)
    else none

-- A text of 36 bytes that `uuid128_table` does not name.
unfoldable pub base_uuid_to_str : List ℕ → Option String
unfolding equal_nocase
base_uuid_to_str uuid =
    if not (equal_nocase (take 28 (drop 8 uuid)) base_suffix)
    then some "Vendor specific"
    else elim (sscanf_x8 uuid) [ none ↦ none | some val ↦ some (bt_uuid32_to_str val) ]

-- Both NULL pointers are `none`.
unfoldable pub bt_uuidstr_to_str : Option (List ℕ) → Option String
bt_uuidstr_to_str none = none
bt_uuidstr_to_str (some uuid) =
    if ltb (length uuid) 36
    then short_uuid_to_str uuid
    else if not (length uuid == 36)
    then none
    else elim (find_uuid128 uuid uuid128_table) [
      | some str ↦ some str
      | none ↦ base_uuid_to_str uuid
    ]

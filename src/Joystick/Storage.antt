-- ===== src/Joystick/Storage.antt =====
-- src/joystick.cpp: what `save_config` writes and `load_config` reads. The file is a tree with a
-- section for each device, and a section is a tree of numbers by the names of their actions.
pub mod Names
pub mod Saved
use sws.Base.{
  ℕ, zero, suc, ◌+◌, ◌-◌, ◌/◌, ◌%◌, ◌==◌, ltb, length, Bool, not, ◌||◌, if◌then◌else◌, Option, none,
  some, List, [], ◌∷◌, ◌++◌, replicate, Text, codes, same, ℤ,
}
use sws.Ptree.{Ptree, lookup}
use sws.Joystick.{Settings, load_settings}
use sws.Joystick.Actions.{enum_to_string}

-- `std::hex`: the digits of a number, with the small letters. A number has at most as many as the fuel
-- counts: 16 are enough for an `unsigned long`.
unfoldable pub hex_digits : (fuel n : ℕ) → Text
hex_digits zero n = []
hex_digits (suc fuel) n =
    let high = hex_digits fuel (n / 16) in
    (if n / 16 == 0 then [] else high)
    ++ (if ltb (n % 16) 10 then n % 16 + 48 else n % 16 + 87) ∷ []

-- `std::setfill('0') << std::setw(4) << std::hex`
unfoldable pub four_digits : ℕ → Text
unfolding hex_digits
four_digits n = let t = hex_digits 16 n in replicate (4 - length t) 48 ++ t

-- The name of the section of a device.
unfoldable pub hwid : (vid pid : ℕ) → Text
unfolding four_digits
hwid vid pid = four_digits vid ++ four_digits pid

module _ (P : Ptree ℤ) (Q : Ptree P.Tree) where
  -- The settings in the order of their map, put into a tree.
  unfoldable pub put_settings : P.Tree → Settings → P.Tree
  put_settings newtree [] = newtree
  put_settings newtree ((key, a) ∷ settings) =
      put_settings (P.put newtree (enum_to_string a) key) settings

  -- A section that is found is replaced, and one that is not is added.
  unfoldable pub put_section : Q.Tree → Text → P.Tree → Q.Tree
  put_section js name newtree = elim (lookup name (Q.children js)) [
    | none ↦ Q.add js name newtree
    | some t ↦ Q.put js name newtree
  ]

  -- The tree "joysticks" that `save_config` writes, for the tree that is in the file and the
  -- identifiers of the device.
  unfoldable pub save_config : (vid pid : ℕ) → Settings → Q.Tree → Q.Tree
  save_config vid pid settings js =
      let name = if (vid == 0) || (pid == 0) then codes "default" else hwid vid pid in
      let newtree = put_settings P.empty settings in
      let js' = put_section js name newtree in
      if not (same name (codes "default")) then Q.put js' (codes "default") newtree else js'

  -- `load_config` of the tree "joysticks", for known identifiers; none where it
  -- throws: there is no section of the device and none of name "default".
  unfoldable pub load_config : (vendor_id product_id : ℕ) → Q.Tree → Option Settings
  load_config vendor_id product_id pt = elim (lookup (hwid vendor_id product_id) (Q.children pt)) [
    | some js ↦ some (load_settings [] (P.children js))
    | none ↦ elim (lookup (codes "default") (Q.children pt)) [
      | some js ↦ some (load_settings [] (P.children js))
      | none ↦ none
    ]
  ]

-- ===== src/Util/Uuid/Lookup.antt =====
-- `bt_uuid16_to_str` against its table.
use sws.Base.{
  ℕ, zero, suc, ◌≡◌, refl, String, Bool, true, false, not, ◌&&◌, some, List, [], ◌∷◌, ◌==◌,
  if◌then◌else◌, get_elem?, arith,
}
use sws.Util.Uuid.{uuid16_table, find_uuid16, bt_uuid16_to_str}

abbrev pub contains : ℕ → List ℕ → Bool
contains u [] = false
contains u (k ∷ ks) = if k == u then true else contains u ks

abbrev distinct : List ℕ → Bool
distinct [] = true
distinct (k ∷ ks) = not (contains k ks) && distinct ks

abbrev pub keys : List (ℕ × String) → List ℕ
keys [] = []
keys ((k, s) ∷ t) = k ∷ keys t

uuid16_table-distinct : distinct (keys uuid16_table) ≡ true
unfolding uuid16_table
uuid16_table-distinct = refl

contains-entry :
    (t : List (ℕ × String)) (i u : ℕ) (s : String)
    → get_elem? t i ≡ some (u, s)
    → contains u (keys t) ≡ true
contains-entry [] i u s h = ground arith
contains-entry ((k, x) ∷ t) zero u s h = ground arith
contains-entry ((k, x) ∷ t) (suc i) u s h = ground (arith, contains-entry t i u s)

find_uuid16-entry :
    (t : List (ℕ × String)) (i u : ℕ) (s : String)
    → distinct (keys t) ≡ true
    → get_elem? t i ≡ some (u, s)
    → find_uuid16 u t ≡ s
unfolding find_uuid16
find_uuid16-entry [] i u s d h = ground arith
find_uuid16-entry ((k, x) ∷ t) zero u s d h = ground arith
find_uuid16-entry ((k, x) ∷ t) (suc i) u s d h =
    ground (arith, contains-entry t i u s, find_uuid16-entry t i u s)

find_uuid16-unknown :
    (t : List (ℕ × String)) (u : ℕ) → contains u (keys t) ≡ false → find_uuid16 u t ≡ "Unknown"
unfolding find_uuid16
find_uuid16-unknown [] u h = refl
find_uuid16-unknown ((k, x) ∷ t) u h = ground (arith, find_uuid16-unknown t u)

-- Every entry of the table is found under its own identifier: no earlier entry hides it.
pub bt_uuid16_to_str-entry :
    (i u : ℕ) (s : String) → get_elem? uuid16_table i ≡ some (u, s) → bt_uuid16_to_str u ≡ s
unfolding bt_uuid16_to_str
bt_uuid16_to_str-entry i u s h = find_uuid16-entry uuid16_table i u s uuid16_table-distinct h

-- An identifier that no entry has is called "Unknown".
pub bt_uuid16_to_str-unknown :
    (u : ℕ) → contains u (keys uuid16_table) ≡ false → bt_uuid16_to_str u ≡ "Unknown"
unfolding bt_uuid16_to_str
bt_uuid16_to_str-unknown u h = find_uuid16-unknown uuid16_table u h

-- ===== src/Util/Uuid/Entries.antt =====
-- `bt_uuidstr_to_str` against `uuid128_table`.
use sws.Base.{
  ℕ, zero, suc, ◌≡◌, refl, String, Bool, true, false, not, ◌&&◌, some, List, [], ◌∷◌, ◌==◌,
  if◌then◌else◌, get_elem?, arith, codes, length,
}
use sws.Util.CString.{equal_nocase}
use sws.Util.Uuid.{uuid128_table, find_uuid128, bt_uuidstr_to_str}

equal_nocase-length : (a b : List ℕ) → equal_nocase a b ≡ true → length a ≡ length b
unfolding equal_nocase
equal_nocase-length [] [] h = refl
equal_nocase-length [] (d ∷ b) h = ground arith
equal_nocase-length (c ∷ a) [] h = ground arith
equal_nocase-length (c ∷ a) (d ∷ b) h = ground (arith, equal_nocase-length a b)

-- Two texts that equal a third one up to case are equal up to case.
equal_nocase-join :
    (a b c : List ℕ) → equal_nocase a c ≡ true → equal_nocase b c ≡ true → equal_nocase a b ≡ true
unfolding equal_nocase
equal_nocase-join [] [] c h k = refl
equal_nocase-join [] (y ∷ b) [] h k = ground arith
equal_nocase-join [] (y ∷ b) (z ∷ c) h k = ground arith
equal_nocase-join (x ∷ a) [] [] h k = ground arith
equal_nocase-join (x ∷ a) [] (z ∷ c) h k = ground arith
equal_nocase-join (x ∷ a) (y ∷ b) [] h k = ground arith
equal_nocase-join (x ∷ a) (y ∷ b) (z ∷ c) h k = ground (arith, equal_nocase-join a b c)

-- Whether some entry has the identifier `k`, up to case.
names : String → List (String × String) → Bool
unfolding equal_nocase
names k [] = false
names k ((j, s) ∷ t) = if equal_nocase (codes j) (codes k) then true else names k t

-- Every identifier has 36 bytes, and no later entry has the same one.
is_table : List (String × String) → Bool
unfolding names
is_table [] = true
is_table ((k, s) ∷ t) = length (codes k) == 36 && (not (names k t) && is_table t)

is_table-uuid128_table : is_table uuid128_table ≡ true
unfolding is_table uuid128_table
is_table-uuid128_table = refl

names-entry :
    (t : List (String × String)) (i : ℕ) (k j s : String) (u : List ℕ)
    → get_elem? t i ≡ some (j, s)
    → equal_nocase (codes j) u ≡ true
    → equal_nocase (codes k) u ≡ true
    → names k t ≡ true
unfolding names
names-entry [] i k j s u h e f = ground arith
names-entry ((x, y) ∷ t) zero k j s u h e f =
    ground (arith, equal_nocase-join (codes j) (codes k) u)
names-entry ((x, y) ∷ t) (suc i) k j s u h e f = ground (arith, names-entry t i k j s u)

find_uuid128-entry :
    (t : List (String × String)) (i : ℕ) (k s : String) (u : List ℕ)
    → is_table t ≡ true
    → get_elem? t i ≡ some (k, s)
    → equal_nocase (codes k) u ≡ true
    → (find_uuid128 u t ≡ some s) × (length u ≡ 36)
unfolding find_uuid128 is_table
find_uuid128-entry [] i k s u d h e = ground arith
find_uuid128-entry ((x, y) ∷ t) zero k s u d h e = ground (arith, equal_nocase-length (codes x) u)
find_uuid128-entry ((x, y) ∷ t) (suc i) k s u d h e =
    ground (arith, names-entry t i x k s u, find_uuid128-entry t i k s u)

-- A text that equals an identifier of `uuid128_table` up to case is given that entry's name: no
-- earlier entry hides it.
pub bt_uuidstr_to_str-named :
    (i : ℕ) (k s : String) (u : List ℕ)
    → get_elem? uuid128_table i ≡ some (k, s)
    → equal_nocase (codes k) u ≡ true
    → bt_uuidstr_to_str (some u) ≡ some s
unfolding bt_uuidstr_to_str
bt_uuidstr_to_str-named i k s u h e =
    let f = find_uuid128-entry uuid128_table i k s u is_table-uuid128_table h e in rw (f.1, f.0)

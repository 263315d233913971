-- ===== src/Util/Appearance/Nearest.antt =====
-- `bt_appear_to_str` finds the value, or else the category that it falls in.
use sws.Base.{
  ℕ, zero, suc, ◌+◌, ◌<◌, ◌≡◌, refl, String, Option, none, some, Bool, true, ◌&&◌, List, [], ◌∷◌,
  leb, ◌==◌, if◌then◌else◌, get_elem?, drop, arith,
}
use sws.Util.Appearance.{appearance_table, appear_loop, bt_appear_to_str, Appearance}

-- The entry with this very value.
abbrev pub exact : ℕ → List Appearance → Option String
exact a [] = none
exact a (e ∷ t) = if e.val == a then some e.str else exact a t

-- The last category that does not lie above the value, or `s` where there is none.
abbrev pub category : String → ℕ → List Appearance → String
category s a [] = s
category s a (e ∷ t) = category (if e.generic && leb e.val a then e.str else s) a t

-- The values rise along the table.
abbrev rises : ℕ → List Appearance → Bool
rises n [] = true
rises n (e ∷ t) = leb n e.val && rises (suc e.val) t

appearance_table-rises : rises 0 appearance_table ≡ true
unfolding appearance_table
appearance_table-rises = refl

exact-above : (n a : ℕ) (t : List Appearance) → rises n t ≡ true → a < n → exact a t ≡ none
exact-above n a [] r h = refl
exact-above n a (e ∷ t) r h = ground (arith, exact-above (suc e.val) a t)

category-above :
    (n a : ℕ) (s : String) (t : List Appearance) → rises n t ≡ true → a < n → category s a t ≡ s
category-above n a s [] r h = refl
category-above n a s (e ∷ t) r h = ground (arith, category-above (suc e.val) a s t)

abbrev pub or_category : Option String → String → String
or_category none s = s
or_category (some x) s = x

-- What the loop's two results stand for, given the entry that `type` points to.
abbrev result : List Appearance → Option String × ℕ → Option String
result full (some s, type) = some s
result full (none, type) = elim (get_elem? full type) [ none ↦ none | some e ↦ some e.str ]

get_elem?-drop {ℓ} :
    {A : Type ℓ} (i : ℕ) (xs : List A) (x : A) (ys : List A)
    → drop i xs ≡ x ∷ ys
    → (get_elem? xs i ≡ some x) × (drop (suc i) xs ≡ ys)
get_elem?-drop zero [] x ys h = ground arith
get_elem?-drop zero (y ∷ xs) x ys h = ground arith
get_elem?-drop (suc i) [] x ys h = ground arith
get_elem?-drop (suc i) (y ∷ xs) x ys h = get_elem?-drop i xs x ys h

appear_loop_lem :
    (full t : List Appearance) (n i type a : ℕ) (c : Appearance)
    → rises n t ≡ true
    → drop i full ≡ t
    → get_elem? full type ≡ some c
    → result full (appear_loop t i type a) ≡ some (or_category (exact a t) (category c.str a t))
unfolding appear_loop
appear_loop_lem full [] n i type a c r d g = ground arith
appear_loop_lem full (e ∷ t) n i type a c r d g =
    let at = get_elem?-drop i full e t d in
    ground (
      arith,
      exact-above (suc e.val) a t,
      category-above (suc e.val) a e.str t,
      category-above (suc e.val) a c.str t,
      appear_loop_lem full t (suc e.val) (i + 1) type a c,
      appear_loop_lem full t (suc e.val) (i + 1) i a e,
    )

abbrev unknown : Appearance
unknown = record { val = 0; generic = true; str = "Unknown" }

appearance_table-first : get_elem? appearance_table 0 ≡ some unknown
unfolding appearance_table
appearance_table-first = refl

-- The name of an appearance value is that of the entry with this value; where there is none, that
-- of the last category which does not lie above it. The table is never read outside its bounds.
pub bt_appear_to_str-nearest :
    (a : ℕ)
    → bt_appear_to_str a
      ≡ some (or_category (exact a appearance_table) (category "Unknown" a appearance_table))
unfolding bt_appear_to_str
bt_appear_to_str-nearest a = ground (
  arith,
  appear_loop_lem appearance_table appearance_table 0 0 0 a unknown appearance_table-rises refl
      appearance_table-first,
)

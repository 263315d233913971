-- ===== src/Util/Text.antt =====
-- src/util.c, `strdelimit` and `strsuffix`.
pub mod Delimit
pub mod Suffix
use sws.Base.{
  ℕ, zero, suc, ◌-◌, Bool, true, false, Option, none, some, List, [], ◌∷◌, ◌++◌, ltb, ◌==◌,
  if◌then◌else◌, length, drop, ◌&&◌, not,
}
use Prim.Native.Nat.{compare, Ordering}

-- strchr(s, d): what stands before the first `d`, and what stands behind it.
unfoldable pub strchr : List ℕ → ℕ → Option (List ℕ × List ℕ)
strchr [] d = none
strchr (x ∷ s) d =
    if x == d
    then some ([], s)
    else elim (strchr s d) [ none ↦ none | some (p, q) ↦ some (x ∷ p, q) ]

-- `while ((rep = strchr(rep, d))) rep[0] = c;` from the text at `rep` on. A NUL that is written ends
-- the text. `none` means that the fuel ran out.
unfoldable pub replace_loop : ℕ → List ℕ → ℕ → ℕ → Option (List ℕ)
replace_loop zero s d c = none
replace_loop (suc fuel) s d c = elim (strchr s d) [
  | none ↦ some s
  | some (before, after) ↦ elim (c == 0) [
    | true ↦ some before
    | false ↦ elim (replace_loop fuel (c ∷ after) d c) [ none ↦ none | some r ↦ some (before ++ r) ]
  ]
]

-- `while (del[0] != '\0') { … del++; }`
unfoldable pub delimit_loop : ℕ → List ℕ → List ℕ → ℕ → Option (List ℕ)
delimit_loop fuel dup [] c = some dup
delimit_loop fuel dup (d ∷ del) c = elim (replace_loop fuel dup d c) [
  | none ↦ none
  | some dup' ↦ delimit_loop fuel dup' del c
]

-- The outer `none` means that the fuel ran out, the inner one is NULL.
unfoldable pub strdelimit : ℕ → Option (List ℕ) → List ℕ → ℕ → Option (Option (List ℕ))
strdelimit fuel none del c = some none
strdelimit fuel (some []) del c = some (some [])
strdelimit fuel (some (x ∷ s)) del c = elim (delimit_loop fuel (x ∷ s) del c) [
  | none ↦ none
  | some r ↦ some (some r)
]

-- strncmp(a, b, n): the sign of the result.
unfoldable pub strncmp : List ℕ → List ℕ → ℕ → Ordering
strncmp a b zero = Ordering.eq
strncmp [] [] (suc n) = Ordering.eq
strncmp [] (y ∷ b) (suc n) = Ordering.lt
strncmp (x ∷ a) [] (suc n) = Ordering.gt
strncmp (x ∷ a) (y ∷ b) (suc n) =
    let rest = strncmp a b n in
    elim (compare x y) [
      | Ordering.lt ↦ Ordering.lt
      | Ordering.eq ↦ rest
      | Ordering.gt ↦ Ordering.gt
    ]

-- The result -1 is `Ordering.lt`, and 0 is `Ordering.eq`.
unfoldable pub strsuffix : Option (List ℕ) → Option (List ℕ) → Ordering
strsuffix none suffix = Ordering.lt
strsuffix (some str) none = Ordering.lt
strsuffix (some str) (some suffix) =
    if length str == 0 && not (length suffix == 0)
    then Ordering.lt
    else if length suffix == 0 && not (length str == 0)
    then Ordering.lt
    else if ltb (length str) (length suffix)
    then Ordering.lt
    else strncmp (drop (length str - length suffix) str) suffix (length suffix)

-- ===== src/Ptree.antt =====
-- What the program uses of a boost property tree, one level deep: an interface, which the
-- configuration and the joystick's settings take as a parameter.
pub mod Listed
use sws.Base.{
  Bool, false, ◌==◌, ◌||◌, ◌≡◌, List, [], ◌∷◌, ◌++◌, Option, none, some, if◌then◌else◌, Text, same,
}

-- The children named by keys, with `put` as the library documents it for a key without a dot: an existing child gets the new
-- value, and a new child comes last.
abbrev pub replace : {A : Type 0} → Text → A → List (Text × A) → List (Text × A)
replace k v [] = (k, v) ∷ []
replace k v ((j, w) ∷ l) =
    let rest = replace k v l in if same j k then (k, v) ∷ l else (j, w) ∷ rest

-- A dot stands between the keys of a path.
abbrev pub has_dot : Text → Bool
has_dot [] = false
has_dot (c ∷ k) = (c == 46) || has_dot k

abbrev pub lookup : {A : Type 0} → Text → List (Text × A) → Option A
lookup k [] = none
lookup k ((j, w) ∷ l) = let rest = lookup k l in if same j k then some w else rest

pub record Ptree (A : Type 0) : Type 1 where
  pub Tree : Type 0
  pub empty : Tree
  pub put : Tree → Text → A → Tree
  pub add : Tree → Text → A → Tree
  pub children : Tree → List (Text × A)

pub record IsLawful {A : Type 0} (P : Ptree A) : Type 0 where
  pub children-empty : P.children P.empty ≡ []
  pub children-put :
      (t : P.Tree) (k : Text) (v : A)
      → has_dot k ≡ false
      → P.children (P.put t k v) ≡ replace k v (P.children t)
  pub children-add :
      (t : P.Tree) (k : Text) (v : A)
      → has_dot k ≡ false
      → P.children (P.add t k v) ≡ P.children t ++ ((k, v) ∷ [])

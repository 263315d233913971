-- ===== src/Ptree/Listed.antt =====
-- A tree as the list of its children, and what follows from the laws.
use sws.Base.{
  ◌≡◌, refl, ap, ◌∙◌, List, [], ◌∷◌, ◌++◌, Option, none, some, if◌then◌else◌, Text, same, same→eq,
  same_refl, arith, false,
}
use sws.Ptree.{Ptree, IsLawful, replace, lookup, has_dot}

abbrev pub listed : (A : Type 0) → Ptree A
listed A = record {
  Tree = List (Text × A);
  empty = [];
  put = λ t k v. replace k v t;
  add = λ t k v. t ++ ((k, v) ∷ []);
  children = λ t. t;
}

pub listed-IsLawful : (A : Type 0) → IsLawful (listed A)
listed-IsLawful A = record {
  children-empty = refl;
  children-put = λ t k v n. refl;
  children-add = λ t k v n. refl;
}

pub lookup-replace :
    {A : Type 0} (j k : Text) (v : A) (l : List (Text × A))
    → lookup j (replace k v l) ≡ (if same k j then some v else lookup j l)
lookup-replace j k v [] = refl
lookup-replace j k v ((i, w) ∷ l) =
    ground (
      arith,
      lookup-replace j k v l,
      same→eq i k,
      same→eq i j,
      same→eq k j,
      same_refl j,
      same_refl k,
    )

lookup-append :
    {A : Type 0} (j k : Text) (v : A) (l : List (Text × A))
    → lookup k l ≡ none
    → lookup j (l ++ ((k, v) ∷ [])) ≡ (if same k j then some v else lookup j l)
lookup-append j k v [] h = refl
lookup-append j k v ((i, w) ∷ l) h =
    ground (arith, lookup-append j k v l, same→eq i j, same→eq k j, same_refl j)

module _ {A : Type 0} (P : Ptree A) (L : IsLawful P) where
  -- `get`, or nothing where it throws.
  abbrev pub get : P.Tree → Text → Option A
  get t k = lookup k (P.children t)

  pub get-put :
      (t : P.Tree) (k : Text) (v : A) (j : Text)
      → has_dot k ≡ false
      → lookup j (P.children (P.put t k v)) ≡ (if same k j then some v else lookup j (P.children t))
  get-put t k v j n = ap (lookup j) (L.children-put t k v n) ∙ lookup-replace j k v (P.children t)

  pub get-empty : (j : Text) → lookup j (P.children P.empty) ≡ none
  get-empty j = ap (lookup j) L.children-empty

  pub get-add :
      (t : P.Tree) (k : Text) (v : A) (j : Text)
      → has_dot k ≡ false
      → lookup k (P.children t) ≡ none
      → lookup j (P.children (P.add t k v)) ≡ (if same k j then some v else lookup j (P.children t))
  get-add t k v j n h =
      ap (lookup j) (L.children-add t k v n) ∙ lookup-append j k v (P.children t) h

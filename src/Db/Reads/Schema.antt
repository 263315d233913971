-- ===== src/Db/Reads/Schema.antt =====
-- The columns of the catalogue as its statements name them, and the row of a stored song.
use sws.Base.{
  ℕ, ◌≡◌, Bool, true, false, Option, none, some, List, [], ◌∷◌, ◌++◌, ◌==◌, if◌then◌else◌, Text, ℤ,
  codes, same, drop, length, get_elem?,
}
use sws.Base.Texts.{ℤ}
use sws.Db.{Song}
use sws.Db.Reads.{Row, create_catalog}

-- The names between commas, up to the first blank behind a name.
unfoldable pub listed_names : Text → Text → List Text
listed_names name [] = name ∷ []
listed_names name (c ∷ t) =
    let next = name ∷ listed_names [] t in
    let skip = listed_names [] t in
    let more = listed_names (name ++ c ∷ []) t in
    if c == b','
    then next
    else if c == b' '
    then if length name == 0 then skip else name ∷ []
    else more

-- The first word of each part between commas; `reading` is whether it is still being read.
unfoldable pub defined_names : (reading : Bool) → Text → Text → List Text
defined_names reading name [] = []
defined_names true name (c ∷ t) =
    let skip = defined_names true name t in
    let ended = name ∷ defined_names false [] t in
    let more = defined_names true (name ++ c ∷ []) t in
    if c == b' ' then if length name == 0 then skip else ended else more
defined_names false name (c ∷ t) =
    let next = defined_names true [] t in
    let skip = defined_names false name t in if c == b',' then next else skip

-- The columns that a SELECT asks for, and those that the table of the catalogue has.
unfoldable pub selected : Text → List Text
unfolding listed_names
selected query = listed_names [] (drop 7 query)

unfoldable pub catalog_columns : List Text
unfolding defined_names
catalog_columns =
    defined_names true []
      (drop (length (codes "CREATE TABLE IF NOT EXISTS db_catalog (")) create_catalog)

pub data Value : Type 0 where
  text : Text → Value
  number : ℤ → Value
  real : ℕ → Value

-- The values that the statement of `insert_track` lists, in its order.
abbrev pub inserted : Song → List Value
inserted s =
    text s.path
    ∷ text s.title
    ∷ number s.track_no
    ∷ text s.album
    ∷ number (ℤ.pos s.year)
    ∷ text s.artist
    ∷ number (if s.favorite then ℤ.pos 1 else ℤ.pos 0)
    ∷ real s.duration
    ∷ text s.spotify_id
    ∷ text s.md5
    ∷ []

abbrev pub texts : List Value → List Text
texts [] = []
texts (text t ∷ vs) = t ∷ texts vs
texts (number z ∷ vs) = texts vs
texts (real d ∷ vs) = texts vs

-- The value in the column of this name.
unfoldable pub value_of : Text → List Text → List Value → Option Value
unfolding same
value_of name [] vs = none
value_of name (column ∷ columns) [] = none
value_of name (column ∷ columns) (v ∷ vs) =
    let rest = value_of name columns vs in if same column name then some v else rest

abbrev pub column : Text → ℕ → List Value → Option Value
column query i vs = elim (get_elem? (selected query) i) [
  | none ↦ none
  | some name ↦ value_of name catalog_columns vs
]

-- A row that SQLite yields for a query over the catalogue where the values were inserted: in each
-- column of the query stands the value of the catalogue's column of that name.
pub record Holds (query : Text) (vs : List Value) (r : Row) : Type 0 where
  pub as_text : (i : ℕ) (t : Text) → column query i vs ≡ some (text t) → r.column_text i ≡ some t
  pub as_number : (i : ℕ) (z : ℤ) → column query i vs ≡ some (number z) → r.column_int i ≡ z

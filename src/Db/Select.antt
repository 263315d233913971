-- ===== src/Db/Select.antt =====
-- src/db.cpp: the two searches that build their condition from a song, `select_where` and
-- `select_like`. A search that has no condition does not run.
use sws.Base.{
  Bool, true, false, not, ◌∷◌, List, [], ◌++◌, if◌then◌else◌, Text, decimal, codes, joined, length,
  Option, none, some, ◌==◌, ltb,
}
use sws.Db.{Song, escape, to_string_bool}

unfoldable pub more : Bool → Text
more b = if b then codes " AND" else []

-- The variables of both functions that the conditions change: `where` and `where_clause`.
pub record Clause : Type 0 where
  pub started : Bool
  pub text : Text

abbrev pub no_clause : Clause
no_clause = record { started = false; text = [] }

-- `if (test) { where_clause += more(where) + condition; where = true; }`
unfoldable pub add_condition : Bool → Text → Clause → Clause
unfolding more
add_condition test condition c =
    if test then record { started = true; text = c.text ++ (more c.started ++ condition) } else c

-- What is asked of each text column: equality in `select_where`, a pattern in `select_like`.
unfoldable pub condition : Bool → Text → Text → Text
unfolding escape
condition like column value =
    if like
    then joined (codes " " ∷ column ∷ codes " LIKE '%" ∷ escape value ∷ codes "%'" ∷ [])
    else joined (codes " " ∷ column ∷ codes "='" ∷ escape value ∷ codes "'" ∷ [])

abbrev pub is_set : Text → Bool
is_set s = not (length s == 0)

unfoldable pub where_clause : Bool → Song → Clause
where_clause like s =
    let c = add_condition (is_set s.album) (condition like (codes "album") s.album) no_clause in
    let c = add_condition (is_set s.artist) (condition like (codes "artist") s.artist) c in
    let c = add_condition s.favorite (codes " favorite=" ++ to_string_bool s.favorite) c in
    let c = add_condition (is_set s.title) (condition like (codes "title") s.title) c in
    add_condition (ltb 0 s.year) (codes " year=" ++ decimal s.year) c

-- The statement that is run, if one is.
unfoldable pub select_query : Bool → Song → Option Text
select_query like s =
    let c = where_clause like s in
    if c.started
    then some (joined (codes "SELECT path from db_catalog WHERE" ∷ c.text ∷ codes ";" ∷ []))
    else none

-- What the database answers to a statement: a failure to prepare it, or the first column of each
-- row, as far as the steps go.
pub data Answer : Type 0 where
  refused : Answer
  rows : List Text → Answer

-- The loop of steps, and the result of the search.
unfoldable pub fetch : Answer → List Text
fetch refused = []
fetch (rows paths) = paths

unfoldable pub select_where : (Text → Answer) → Song → List Text
unfolding select_query fetch
select_where answer s = elim (select_query false s) [ none ↦ [] | some q ↦ fetch (answer q) ]

unfoldable pub select_like : (Text → Answer) → Song → List Text
unfolding select_query fetch
select_like answer s = elim (select_query true s) [ none ↦ [] | some q ↦ fetch (answer q) ]

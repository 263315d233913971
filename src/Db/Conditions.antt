-- ===== src/Db/Conditions.antt =====
-- The searches ask for the conjunction of the conditions that the song gives.
use sws.Base.{
  ◌≡◌, refl, ap, Bool, true, false, Option, none, some, List, [], ◌∷◌, ◌++◌, if◌then◌else◌, Text,
  codes, joined, decimal, ltb,
}
use mathlib.Core.List.{append_assoc, append-nil}
use sws.Db.{Song, to_string_bool}
use sws.Db.Select.{
  Clause, no_clause, more, add_condition, condition, is_set, where_clause, select_query,
}

abbrev when {ℓ} : {A : Type ℓ} → Bool → A → List A
when b a = if b then a ∷ [] else []

-- The conditions that a song gives, in the order of the columns.
pub conditions : Bool → Song → List Text
conditions like s =
    when (is_set s.album) (condition like (codes "album") s.album)
    ++ (when (is_set s.artist) (condition like (codes "artist") s.artist)
        ++ (when s.favorite (codes " favorite=" ++ to_string_bool s.favorite)
            ++ (when (is_set s.title) (condition like (codes "title") s.title)
                ++ when (ltb 0 s.year) (codes " year=" ++ decimal s.year))))

-- The texts with " AND" between them.
abbrev pub and_also : List Text → Text
and_also [] = []
and_also (c ∷ []) = c
and_also (c ∷ d ∷ cs) = c ++ (codes " AND" ++ and_also (d ∷ cs))

abbrev clause_of : List Text → Clause
clause_of [] = no_clause
clause_of (c ∷ cs) = record { started = true; text = and_also (c ∷ cs) }

and_also-snoc :
    (c : Text) (cs : List Text) (d : Text)
    → and_also ((c ∷ cs) ++ (d ∷ [])) ≡ and_also (c ∷ cs) ++ (codes " AND" ++ d)
and_also-snoc c [] d = refl
and_also-snoc c (e ∷ cs) d = rw (and_also-snoc e cs d) (simp append_assoc)

add_condition-clause_of :
    (test : Bool) (d : Text) (cs : List Text)
    → add_condition test d (clause_of cs) ≡ clause_of (cs ++ when test d)
unfolding add_condition more
add_condition-clause_of true d [] = refl
add_condition-clause_of true d (c ∷ cs) = rw (and_also-snoc c cs d)
add_condition-clause_of false d cs = rw (append-nil cs)

where_clause-conditions :
    (like : Bool) (s : Song) → where_clause like s ≡ clause_of (conditions like s)
unfolding where_clause conditions
where_clause-conditions like s =
    rw
      (
        add_condition-clause_of (is_set s.album) (condition like (codes "album") s.album) [],
        add_condition-clause_of (is_set s.artist),
        add_condition-clause_of s.favorite,
        add_condition-clause_of (is_set s.title),
        add_condition-clause_of (ltb 0 s.year),
      )
      (ap clause_of (simp append_assoc))

abbrev pub query_for : List Text → Option Text
query_for [] = none
query_for (c ∷ cs) =
    some (codes "SELECT path from db_catalog WHERE" ++ (and_also (c ∷ cs) ++ codes ";"))

clause-query :
    (cs : List Text)
    → (if (clause_of cs).started
        then some (
            joined
              (codes "SELECT path from db_catalog WHERE" ∷ (clause_of cs).text ∷ codes ";" ∷ []))
        else none)
      ≡ query_for cs
clause-query [] = refl
clause-query (c ∷ cs) = refl

-- `select_where` and `select_like` run the conjunction of exactly the conditions whose field is
-- given, in the order of album, artist, favorite, title and year, and nothing where no field is.
pub select_query-conditions :
    (like : Bool) (s : Song) → select_query like s ≡ query_for (conditions like s)
unfolding select_query
select_query-conditions like s =
    rw (where_clause-conditions like s) (clause-query (conditions like s))

-- ===== src/Db/Reads/Stored.antt =====
-- A song that was inserted in the catalogue is read back by src/db.cpp.
use sws.Base.{
  ℕ, ◌<◌, ◌^◌, ◌≡◌, refl, Bool, true, false, some, List, [], ◌∷◌, ◌++◌, Text, ℤ, codes, arith,
  if◌then◌else◌,
}
use sws.Base.Texts.{ℤ}
use sws.Db.{Song}
use sws.Db.Literal.{IsPlain, first}
use sws.Db.Pieces.{literals, plain, quoted, literals-render}
use sws.Db.Pieces.Tracks.{literals-insert_track}
use sws.Db.Statements.{insert_track}
use sws.Db.Reads.Written.{insert_of, insert_track-inserted}
use sws.Db.Reads.{
  Row, Reply, rows, create_catalog, track_query, of_row, select_track, to_ushort, to_bool,
}
use sws.Db.Reads.Schema.{
  text, number, inserted, texts, column, Holds, selected, catalog_columns, value_of,
}

-- Which values the columns of the query of `select_track` show.
columns-track_query :
    (path : Text) (s : Song)
    → (column (track_query path) 0 (inserted s) ≡ some (text s.title))
      × (column (track_query path) 1 (inserted s) ≡ some (number s.track_no))
      × (column (track_query path) 2 (inserted s) ≡ some (text s.album))
      × (column (track_query path) 3 (inserted s) ≡ some (number (ℤ.pos s.year)))
      × (column (track_query path) 4 (inserted s) ≡ some (text s.artist))
      × (column (track_query path) 5 (inserted s)
          ≡ some (number (if s.favorite then ℤ.pos 1 else ℤ.pos 0)))
      × (column (track_query path) 6 (inserted s) ≡ some (text s.spotify_id))
      × (column (track_query path) 7 (inserted s) ≡ some (text s.md5))
unfolding track_query selected catalog_columns value_of
columns-track_query path s = (refl, refl, refl, refl, refl, refl, refl, refl)

to_bool-favorite : (b : Bool) → to_bool (if b then ℤ.pos 1 else ℤ.pos 0) ≡ b
unfolding to_bool
to_bool-favorite true = refl
to_bool-favorite false = refl

to_ushort-year : (n : ℕ) → n < 2 ^ 16 → to_ushort (ℤ.pos n) ≡ n
unfolding to_ushort
to_ushort-year n h = omega arith

-- What is read of a row of an inserted song.
abbrev pub read_back : Song → Song → Song
read_back raw s = record s { rating = raw.rating; duration = raw.duration; found = true }

of_row-Holds :
    (raw s : Song) (r : Row)
    → s.year < 2 ^ 16
    → Holds (track_query s.path) (inserted s) r
    → of_row raw s.path r ≡ some (read_back raw s)
unfolding of_row
of_row-Holds raw s r y h =
    let c = columns-track_query s.path s in
    rw (
      h.as_text 0 s.title c.0,
      h.as_number 1 s.track_no c.1,
      h.as_text 2 s.album c.2,
      h.as_number 3 (ℤ.pos s.year) c.3,
      h.as_text 4 s.artist c.4,
      h.as_number 5 (if s.favorite then ℤ.pos 1 else ℤ.pos 0) c.5,
      h.as_text 6 s.spotify_id c.6,
      h.as_text 7 s.md5 c.7,
      to_ushort-year s.year y,
      to_bool-favorite s.favorite,
    )

-- From a row that holds the inserted values.
pub select_track-Holds :
    (answer : List Text → Reply) (raw s : Song) (r : Row) (rs : List Row)
    → s.year < 2 ^ 16
    → answer (create_catalog ∷ track_query s.path ∷ []) ≡ rows (r ∷ rs)
    → Holds (track_query s.path) (inserted s) r
    → select_track answer raw s.path ≡ some (read_back raw s)
unfolding select_track
select_track-Holds answer raw s r rs y e h = rw (e, select_track) (of_row-Holds raw s r y h)

literals-track_query : (path : Text) → literals (track_query path) ≡ some (path ∷ [])
unfolding track_query
literals-track_query path =
    literals-render
      (plain (
          codes
            "SELECT title, track_no, album, year, artist, favorite, spotify_id, file_hash from db_catalog "
          ++ codes "WHERE path=")
        ∷ quoted path
        ∷ plain (codes ";")
        ∷ [])
      (omega arith, (omega arith, tt))

-- A song that insert_track has written is read back by select_track, if its year is below 2^16 and its
-- spotify_id and digest hold no quote: the INSERT lists its values, numbers included, in the order of
-- the table's columns; its literals are the song's texts, that of the SELECT is the path, and from a row that holds the inserted values under the names of the columns it gets all
-- members but the rating and the duration, which are those of the memory of the new song. The row is
-- the database's answer to the SELECT.
pub select_track-insert_track :
    (answer : List Text → Reply) (raw s : Song) (r : Row) (rs : List Row)
    → IsPlain s.spotify_id
    → IsPlain s.md5
    → s.year < 2 ^ 16
    → answer (create_catalog ∷ track_query s.path ∷ []) ≡ rows (r ∷ rs)
    → Holds (track_query s.path) (inserted s) r
    → (insert_track s ≡ insert_of (inserted s) ∷ [])
      × (literals (first (insert_track s)) ≡ some (texts (inserted s)))
      × (literals (track_query s.path) ≡ some (s.path ∷ []))
      × (select_track answer raw s.path ≡ some (read_back raw s))
select_track-insert_track answer raw s r rs p q y e h = (
  insert_track-inserted s p q,
  literals-insert_track s p q,
  literals-track_query s.path,
  select_track-Holds answer raw s r rs y e h,
)

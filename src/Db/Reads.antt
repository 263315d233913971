-- ===== src/Db/Reads.antt =====
-- src/db.cpp: the constructor, and the functions that read: `select_track`, `select_playlist`,
-- `get_playlist_source`, `get_playlist_current`, `influences`, `artists` and `tables`.
--
-- What the database answers is a parameter.
pub mod Schema
pub mod Stored
pub mod Written
use sws.Base.{
  ℕ, ◌-◌, ◌%◌, ◌^◌, Bool, true, false, not, ◌==◌, Option, none, some, List, [], ◌∷◌, ◌++◌, Text, ℤ,
  codes, joined, ◌>>=◌,
}
use sws.Base.Texts.{ℤ}
use sws.Db.{Song, escape}

-- What `sqlite3_column_text` and `sqlite3_column_int` give of the columns of a row. The text of NULL is
-- a NULL pointer.
pub record Row : Type 0 where
  pub column_text : ℕ → Option Text
  pub column_int : ℕ → ℤ

-- What the database answers to a statement: it cannot be prepared, or the steps yield these rows.
pub data Reply : Type 0 where
  refused : Reply
  rows : List Row → Reply

abbrev pub create_catalog : Text
create_catalog = joined (
    codes
      "CREATE TABLE IF NOT EXISTS db_catalog (path TEXT PRIMARY_KEY DEFAULT '', title TEXT DEFAULT '', "
    ∷ codes
        "track_no INTEGER DEFAULT 0, album TEXT DEFAULT '', year INTEGER DEFAULT 0, artist TEXT DEFAULT '', favorite INTEGER DEFAULT 0, "
    ∷ codes "duration REAL DEFAULT 0, spotify_id TEXT DEFAULT '', file_hash TEXT DEFAULT '-1');"
    ∷ [])

-- What `db()` pushes.
unfoldable pub db : List Text
db =
    create_catalog
    ∷ codes
        "CREATE TABLE IF NOT EXISTS _influences (artist TEXT NOT NULL, influence TEXT NOT NULL, PRIMARY KEY (artist, influence));"
    ∷ codes
        "CREATE TABLE IF NOT EXISTS _playlist (name TEXT PRIMARY KEY, source TEXT DEFAULT '', current INTEGER DEFAULT 0);"
    ∷ []

-- int to unsigned short, and int to bool
unfoldable pub to_ushort : ℤ → ℕ
to_ushort (ℤ.pos n) = n % 2 ^ 16
to_ushort (ℤ.negsuc n) = 2 ^ 16 - 1 - n % 2 ^ 16

unfoldable pub to_bool : ℤ → Bool
to_bool (ℤ.pos n) = not (n == 0)
to_bool (ℤ.negsuc n) = true

unfoldable pub track_query : Text → Text
track_query path = joined (
    codes
      "SELECT title, track_no, album, year, artist, favorite, spotify_id, file_hash from db_catalog "
    ∷ codes "WHERE path='"
    ∷ escape path
    ∷ codes "';"
    ∷ [])

-- A song whose row is not there. `s` is the memory of the local song: of its members `rating` and
-- `duration` are never set.
unfoldable pub missing : Song → Song
missing s = record s {
  path = [];
  title = [];
  track_no = ℤ.negsuc 0;
  album = [];
  year = 0;
  artist = [];
  favorite = false;
  spotify_id = [];
  md5 = codes "-1";
  found = false;
}

unfoldable pub of_row : Song → Text → Row → Option Song
unfolding to_ushort to_bool
of_row s path r = do
  title ← r.column_text 0
  album ← r.column_text 2
  artist ← r.column_text 4
  spotify_id ← r.column_text 6
  md5 ← r.column_text 7
  some (record s {
    path = path;
    title = title;
    track_no = r.column_int 1;
    album = album;
    year = to_ushort (r.column_int 3);
    artist = artist;
    favorite = to_bool (r.column_int 5);
    spotify_id = spotify_id;
    md5 = md5;
    found = true;
  })

-- The function runs the first statement at once, and reads the first row of what is answered to the
-- second. The result is none where a text is made from a NULL pointer.
unfoldable pub select_track : (List Text → Reply) → Song → Text → Option Song
select_track answer s path = elim (answer (create_catalog ∷ track_query path ∷ [])) [
  | refused ↦ some (missing s)
  | rows [] ↦ some (missing s)
  | rows (r ∷ rs) ↦ of_row s path r
]

-- The loop of steps that gathers the first column.
unfoldable pub first_columns : List Row → Option (List Text)
first_columns [] = some []
first_columns (r ∷ rs) = do t ← r.column_text 0; ts ← first_columns rs; some (t ∷ ts)

abbrev pub first_of_all : Reply → Option (List Text)
first_of_all refused = some []
first_of_all (rows rs) = first_columns rs

module _ (answer : Text → Reply) where
  unfoldable pub select_playlist : Text → Option (List Text)
  unfolding first_columns
  select_playlist name =
      first_of_all (answer (joined (codes "SELECT DISTINCT path FROM [" ∷ name ∷ codes "];" ∷ [])))

  unfoldable pub artists : Option (List Text)
  unfolding first_columns
  artists = first_of_all (answer (codes "SELECT DISTINCT artist from db_catalog ORDER BY ARTIST;"))

  unfoldable pub tables : Option (List Text)
  unfolding first_columns
  tables = first_of_all (
      answer (codes "SELECT name FROM sqlite_master WHERE type='table' AND SUBSTR(name,1,1)!='_';"))

-- The loop of `influences`: both texts of a pair are those of column 0.
unfoldable pub influence_pairs : List Row → Option (List (Text × Text))
influence_pairs [] = some []
influence_pairs (r ∷ rs) = do
  artist ← r.column_text 0
  influence ← r.column_text 0
  more ← influence_pairs rs
  some ((artist, influence) ∷ more)

unfoldable pub influences : (Text → Reply) → Option (List (Text × Text))
unfolding influence_pairs
influences answer =
    elim (answer (codes "SELECT artist, influence from _influences ORDER BY artist;")) [
      | refused ↦ some []
      | rows rs ↦ influence_pairs rs
    ]

unfoldable pub source_query : Text → Text
source_query name =
    joined (codes "SELECT source from _playlist WHERE name='" ∷ escape name ∷ codes "';" ∷ [])

unfoldable pub current_query : Text → Text
current_query name =
    joined (codes "SELECT current from _playlist WHERE name='" ∷ escape name ∷ codes "';" ∷ [])

unfoldable pub get_playlist_source : (Text → Reply) → Text → Option Text
unfolding source_query
get_playlist_source answer name = elim (answer (source_query name)) [
  | refused ↦ some []
  | rows [] ↦ some []
  | rows (r ∷ rs) ↦ r.column_text 0
]

unfoldable pub get_playlist_current : (Text → Reply) → Text → ℤ
unfolding current_query
get_playlist_current answer name = elim (answer (current_query name)) [
  | refused ↦ ℤ.pos 0
  | rows [] ↦ ℤ.pos 0
  | rows (r ∷ rs) ↦ r.column_int 0
]

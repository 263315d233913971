-- ===== src/Db/Statements.antt =====
-- src/db.cpp: the statements that change the catalogue. The result is what an operation pushes.
use sws.Base.{
  ◌&&◌, ◌/◌, not, ◌==◌, ℕ, Bool, ◌∷◌, List, [], ◌++◌, if◌then◌else◌, Text, decimal, to_string, ℤ,
  codes, joined, length, take, ◌-◌,
}
use sws.Db.{Song, escape, escape_song, to_query_string, to_string_bool, to_string_double}

unfoldable pub insert_path : Text → List Text
insert_path path =
    joined (codes "INSERT INTO db_catalog (path) VALUES('" ∷ escape path ∷ codes "');" ∷ []) ∷ []

unfoldable pub insert_track : Song → List Text
insert_track s =
    joined
      (codes "INSERT INTO db_catalog VALUES(" ∷ to_query_string (escape_song s) ∷ codes ");" ∷ [])
    ∷ []

unfoldable pub insert_influence : Text → Text → List Text
insert_influence artist influence =
    joined (
      codes "REPLACE INTO _influences VALUES('"
      ∷ artist
      ∷ codes "', '"
      ∷ influence
      ∷ codes "');"
      ∷ [])
    ∷ []

-- The overload for one path.
unfoldable pub add_path_to_playlist : Text → Text → List Text
add_path_to_playlist name path =
    joined (codes "REPLACE INTO [" ∷ name ∷ codes "] VALUES('" ∷ escape path ∷ codes "');" ∷ [])
    ∷ []

-- The loop that gathers the values, each with a comma behind it.
unfoldable pub playlist_values : List Text → Text
playlist_values [] = []
playlist_values (s ∷ paths) =
    joined (codes "('" ∷ escape s ∷ codes "')," ∷ playlist_values paths ∷ [])

-- The overload for a list of paths.
unfoldable pub add_to_playlist : Text → List Text → List Text
unfolding playlist_values
add_to_playlist name [] = []
add_to_playlist name (p ∷ paths) =
    let vals = playlist_values (p ∷ paths) in
    joined (codes "CREATE TABLE IF NOT EXISTS [" ∷ name ∷ codes "] (path TEXT PRIMARY KEY);" ∷ [])
    ∷ joined (
        codes "REPLACE INTO ["
        ∷ name
        ∷ codes "] VALUES "
        ∷ take (length vals - 1) vals
        ∷ codes ";"
        ∷ [])
    ∷ []

unfoldable pub insert_playlist : Text → Text → List Text
insert_playlist name source =
    joined (
      codes "REPLACE INTO _playlist (name, source) VALUES ('"
      ∷ escape name
      ∷ codes "','"
      ∷ escape source
      ∷ codes "');"
      ∷ [])
    ∷ []

-- What stands right of `"track_no" =` in `update_track`. That `=` is an assignment: it overwrites
-- the text built left of it, and the statement is the right side alone.
unfoldable pub update_track : Song → List Text
update_track s =
    joined (
      to_string s.track_no
      ∷ codes ","
      ∷ codes "album='"
      ∷ escape s.album
      ∷ codes "',"
      ∷ codes "year="
      ∷ decimal s.year
      ∷ codes ","
      ∷ codes "artist='"
      ∷ escape s.artist
      ∷ codes "',"
      ∷ codes "favorite="
      ∷ to_string_bool s.favorite
      ∷ codes ","
      ∷ codes "duration="
      ∷ to_string_double s.duration
      ∷ codes ","
      ∷ codes "spotify_id='"
      ∷ s.spotify_id
      ∷ codes "',"
      ∷ codes "file_hash='"
      ∷ escape s.md5
      ∷ codes "' "
      ∷ codes "WHERE path = '"
      ∷ escape s.path
      ∷ codes "';"
      ∷ [])
    ∷ []

unfoldable pub set_playlist_current : Text → ℤ → List Text
set_playlist_current name current =
    joined (
      codes "UPDATE _playlist SET current="
      ∷ to_string current
      ∷ codes " WHERE name='"
      ∷ escape name
      ∷ codes "';"
      ∷ [])
    ∷ []

unfoldable pub remove_track : Text → List Text
remove_track path =
    joined (codes "DELETE FROM db_catalog WHERE path='" ∷ escape path ∷ codes "';" ∷ []) ∷ []

-- The overload for one path.
unfoldable pub remove_path_from_playlist : Text → Text → List Text
remove_path_from_playlist name path =
    joined (codes "DELETE FROM [" ∷ name ∷ codes "] WHERE path='" ∷ escape path ∷ codes "';" ∷ [])
    ∷ []

unfoldable pub remove_from_playlist : Text → List Text → List Text
unfolding remove_path_from_playlist
remove_from_playlist name [] = []
remove_from_playlist name (p ∷ paths) =
    remove_path_from_playlist name p ++ remove_from_playlist name paths

unfoldable pub remove_playlist : Text → List Text
remove_playlist name = joined (codes "DROP TABLE IF EXISTS [" ∷ name ∷ codes "];" ∷ []) ∷ []

-- The overload for a path and a duration.
unfoldable pub update_path_duration : Text → ℕ → List Text
update_path_duration p d =
    joined (
      codes "UPDATE db_catalog SET duration = "
      ∷ to_string_double d
      ∷ codes " WHERE path='"
      ∷ escape p
      ∷ codes "';"
      ∷ [])
    ∷ []

-- Whether the text holds "://".
unfoldable pub has_scheme : Text → Bool
has_scheme [] = Bool.false
has_scheme (a ∷ []) = Bool.false
has_scheme (a ∷ b ∷ []) = Bool.false
has_scheme (a ∷ b ∷ c ∷ s) =
    if a == b':' && b == b'/' && c == b'/' then Bool.true else has_scheme (b ∷ c ∷ s)

-- The overload for a song: `exists` says whether the file does, `playbin` whether the player's
-- pipeline could be made, and `len` is the length in nanoseconds that it reports, 0 if it does not in
-- three seconds. The result is what is pushed, and the song.
unfoldable pub update_duration : Bool → Bool → ℕ → Song → List Text × Song
update_duration exists playbin len s =
    if not exists
    then ([], s)
    else if not s.found
    then ([], s)
    else if not playbin
    then ([], s)
    else let p = if has_scheme s.path then s.path else codes "file://" ++ s.path in
      let duration = len / 1000000000 in
      (
        joined (
              codes "UPDATE db_catalog SET duration = "
              ∷ to_string_double duration
              ∷ codes " WHERE path='"
              ∷ escape p
              ∷ codes "';"
              ∷ [])
            ∷ [],
        record s { duration = duration },
      )

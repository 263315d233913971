-- ===== src/Db.antt =====
-- src/db.cpp and include/db.h: the statements that the catalogue database is given. Each operation
-- yields the texts that it pushes on the queue, in order (`Db.Queue`).
pub mod Literal
pub mod Pieces
pub mod Statements
pub mod Select
pub mod Reads
pub mod Queue
pub mod Conditions
pub mod Defects
use sws.Base.{
  ℕ, Bool, ◌==◌, List, [], ◌∷◌, ◌++◌, if◌then◌else◌, Text, decimal, to_string, ℤ, codes, joined,
}

-- `db::song`. A duration is a whole number of seconds, since the program computes it by an integer
-- division; a rating is 0 or a copy of another.
pub record Song : Type 0 where
  pub path : Text
  pub title : Text
  pub track_no : ℤ
  pub album : Text
  pub year : ℕ
  pub artist : Text
  pub favorite : Bool
  pub spotify_id : Text
  pub rating : ℕ
  pub duration : ℕ
  pub md5 : Text
  pub found : Bool

-- `boost::replace_all(r, "'", "''")`
unfoldable pub escape : Text → Text
escape [] = []
escape (c ∷ s) = let r = escape s in if c == b'\'' then c ∷ c ∷ r else c ∷ r

-- std::to_string of a whole double.
unfoldable pub to_string_double : ℕ → Text
unfolding decimal
to_string_double d = decimal d ++ codes ".000000"

unfoldable pub to_string_bool : Bool → Text
to_string_bool b = if b then codes "1" else codes "0"

-- `song::escape`
unfoldable pub escape_song : Song → Song
unfolding escape
escape_song s = record s {
  path = escape s.path;
  title = escape s.title;
  album = escape s.album;
  artist = escape s.artist;
}

-- `song::to_query_string`
unfoldable pub to_query_string : Song → Text
unfolding to_string decimal to_string_bool to_string_double
to_query_string s = joined (
    codes "'"
    ∷ s.path
    ∷ codes "', '"
    ∷ s.title
    ∷ codes "', "
    ∷ to_string s.track_no
    ∷ codes ", '"
    ∷ s.album
    ∷ codes "', "
    ∷ decimal s.year
    ∷ codes ", '"
    ∷ s.artist
    ∷ codes "', "
    ∷ to_string_bool s.favorite
    ∷ codes ", "
    ∷ to_string_double s.duration
    ∷ codes ", '"
    ∷ s.spotify_id
    ∷ codes "', '"
    ∷ s.md5
    ∷ codes "'"
    ∷ [])

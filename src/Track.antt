-- ===== src/Track.antt =====
-- src/track.cpp and include/track.h: a track is made from its file and from the catalogue.
pub mod Open
pub mod Known
use sws.Base.{
  ℕ, ◌-◌, ◌%◌, ◌^◌, Bool, true, false, not, ◌&&◌, ◌||◌, Option, none, some, List, [], ◌∷◌, ◌++◌,
  if◌then◌else◌, ◌==◌, leb, take, Text, same, codes, ℤ,
}
use sws.Base.Texts.{ℤ}
use sws.Db.{Song}
use sws.Db.Statements.{insert_path, insert_track}

pub record Track : Type 0 where
  pub path : Text
  pub title : Text
  pub track_no : ℕ
  pub album : Text
  pub year : ℕ
  pub artist : Text
  pub favorite : Bool
  pub rating : ℕ
  pub duration : ℕ
  pub spotify_id : Text
  pub md5 : Text
  pub mime_type : Text

-- What TagLib reads from a file.
pub record Tags : Type 0 where
  pub title : Text
  pub track : ℕ
  pub album : Text
  pub year : ℕ
  pub artist : Text

-- What the outside answers of a path: whether the file exists, the catalogue's row, the digest, the
-- type that libmagic gives, and the tags; and what the members hold that the constructor leaves as
-- they are (the texts among them are empty).
pub record File : Type 0 where
  pub exists : Bool
  pub song : Song
  pub hash : Text
  pub mime : Text
  pub tags : Option Tags
  pub raw : Track
  -- whether the number that this memory holds as `duration` is 0 or negative
  pub raw_nonpositive : Bool

-- What the constructor does beside making the track: it pushes a statement, or it queues a pointer
-- to its local song, of this path, which is gone when the constructor returns.
pub data Effect : Type 0 where
  push : Text → Effect
  push_duration : Text → Effect

abbrev pub pushes : List Text → List Effect
pushes [] = []
pushes (q ∷ qs) = push q ∷ pushes qs

-- int to unsigned char
unfoldable pub to_uchar : ℤ → ℕ
to_uchar (ℤ.pos n) = n % 256
to_uchar (ℤ.negsuc n) = 255 - n % 256

unfoldable pub is_audio_mime : Text → Bool
unfolding same
is_audio_mime m = same (take 5 m) (codes "audio") || same (take 5 m) (codes "video")

-- `track()`
unfoldable pub blank : Track
blank = record {
  path = [];
  title = [];
  track_no = 0;
  album = [];
  year = 0;
  artist = [];
  favorite = false;
  rating = 0;
  duration = 0;
  spotify_id = [];
  md5 = [];
  mime_type = [];
}

-- What the body of `~track()` writes to the members, before their own destructors free them.
unfoldable pub emptied : Track → Track
emptied t = record t {
  path = [];
  title = [];
  track_no = 0;
  album = [];
  year = 0;
  artist = [];
  duration = 0;
  md5 = [];
  spotify_id = [];
  favorite = false;
  rating = 0;
  mime_type = [];
}

-- The members before the body of the constructor, and the path.
abbrev pub fresh : Track → Text → Track
fresh raw path = record raw {
  path = path;
  title = [];
  album = [];
  artist = [];
  spotify_id = [];
  md5 = [];
  mime_type = [];
}

unfoldable pub get_tags : Option Tags → Track → Track
get_tags none t = t
get_tags (some tags) t = record t {
  title = tags.title;
  track_no = tags.track % 256;
  album = tags.album;
  year = tags.year % 2 ^ 16;
  artist = tags.artist;
}

unfoldable pub from_song : Track → Song → Track
unfolding to_uchar
from_song t s = record t {
  title = s.title;
  track_no = to_uchar s.track_no;
  album = s.album;
  year = s.year;
  artist = s.artist;
  spotify_id = s.spotify_id;
  duration = s.duration;
  md5 = s.md5;
}

-- `track(path, details)`, which sets `details` to true itself.
unfoldable pub open_track : (Text → File) → Text → Track × List Effect
unfolding is_audio_mime
open_track world path =
    let f = world path in
    let t = record (fresh f.raw path) { mime_type = f.mime } in
    if not f.exists
    then (record blank { path = path }, [])
    else if not f.song.found
    then (t, pushes (insert_path path ++ insert_path path))
    else if not (same f.song.md5 f.hash) && is_audio_mime f.mime
    then (get_tags f.tags t, pushes (insert_track f.song) ++ push_duration f.song.path ∷ [])
    else if f.raw_nonpositive
    then (t, push_duration f.song.path ∷ [])
    else (from_song t f.song, [])

-- `track(db::song)`: the type is asked for, and the other members are those of the song.
unfoldable pub of_song : (Text → Text) → Song → Track
unfolding to_uchar
of_song mime_info s = record {
  path = s.path;
  title = s.title;
  track_no = to_uchar s.track_no;
  album = s.album;
  year = s.year;
  artist = s.artist;
  favorite = s.favorite;
  rating = s.rating;
  duration = s.duration;
  spotify_id = s.spotify_id;
  md5 = s.md5;
  mime_type = mime_info s.path;
}

-- `to_song`: `found` is as a song has it when it is made.
unfoldable pub to_song : Track → Song
to_song t = record {
  path = t.path;
  title = t.title;
  track_no = ℤ.pos t.track_no;
  album = t.album;
  year = t.year;
  artist = t.artist;
  favorite = t.favorite;
  spotify_id = t.spotify_id;
  rating = t.rating;
  duration = t.duration;
  md5 = t.md5;
  found = false;
}

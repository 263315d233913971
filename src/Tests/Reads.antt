-- ===== src/Tests/Reads.antt =====
-- A song that is read back from the catalogue.
use sws.Base.{false, ◌≡◌, refl, ap, arith, true, Option, none, some, List, [], ◌∷◌, codes, Text}
use sws.Base.Texts.{ℤ}
use sws.Db.{Song}
use sws.Db.Literal.{first}
use sws.Db.Pieces.{literals}
use sws.Db.Statements.{insert_track}
use sws.Db.Reads.{Row, Reply, rows, track_query, select_track}
use sws.Db.Reads.Schema.{Value, text, number, Holds, inserted, column}
use sws.Db.Reads.Written.{insert_of}
use sws.Db.Reads.Stored.{select_track-insert_track, select_track-Holds, read_back}
use sws.Track.{File, open_track, to_uchar, blank}
use sws.Track.Known.{open_track-known}
use sws.Tests.Players.{unknown}

abbrev stored : Song
stored = record unknown {
  path = codes "/m/it's.mp3";
  title = codes "It's";
  track_no = ℤ.pos 7;
  album = codes "A";
  year = 1999;
  favorite = true;
  duration = 200;
  md5 = codes "d41d8";
}

-- The memory of a new song, and of a new track.
abbrev memory : Song
memory = record unknown { rating = 3; duration = 77 }

abbrev text_of : Option Value → Option Text
text_of (some (text t)) = some t
text_of _ = none

abbrev number_of : Option Value → ℤ
number_of (some (number z)) = z
number_of _ = ℤ.pos 0

abbrev row : Row
row = record {
  column_text = λ i. text_of (column (track_query stored.path) i (inserted stored));
  column_int = λ i. number_of (column (track_query stored.path) i (inserted stored));
}

row-Holds : Holds (track_query stored.path) (inserted stored) row
row-Holds = record { as_text = λ i t h. ap text_of h; as_number = λ i z h. ap number_of h }

abbrev answer : List Text → Reply
answer qs = rows (row ∷ [])

select_track-insert_track_example :
    (insert_track stored ≡ insert_of (inserted stored) ∷ [])
    × (literals (first (insert_track stored))
        ≡ some (stored.path ∷ stored.title ∷ stored.album ∷ [] ∷ [] ∷ stored.md5 ∷ []))
    × (literals (track_query stored.path) ≡ some (stored.path ∷ []))
    × (select_track answer memory stored.path ≡ some (read_back memory stored))
select_track-insert_track_example =
    select_track-insert_track answer memory stored row [] tt (omega arith) (omega arith) refl
      row-Holds

abbrev known : Text → File
known path = record {
  exists = true;
  song = read_back memory stored;
  hash = codes "d41d8";
  mime = codes "audio/mpeg";
  tags = none;
  raw = record blank { duration = 5 };
  raw_nonpositive = false;
}

open_track-known_example : open_track known stored.path ≡ (
  record {
    path = stored.path;
    title = stored.title;
    track_no = to_uchar (ℤ.pos 7);
    album = stored.album;
    year = 1999;
    artist = [];
    favorite = (known stored.path).raw.favorite;
    rating = (known stored.path).raw.rating;
    duration = 77;
    spotify_id = [];
    md5 = stored.md5;
    mime_type = codes "audio/mpeg";
  },
  [],
)
open_track-known_example =
    open_track-known known answer memory stored row [] refl
      (select_track-Holds answer memory stored row [] (omega arith) refl row-Holds) refl refl
      (omega arith) refl row-Holds

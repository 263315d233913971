-- ===== src/Track/Known.antt =====
-- A track of src/track.cpp whose song is in the catalogue.
use sws.Base.{◌<◌, ◌^◌, ◌≡◌, true, false, some, List, [], ◌∷◌, Text, arith, same_refl}
use sws.Db.{Song}
use sws.Db.Reads.{Row, Reply, rows, create_catalog, track_query, select_track}
use sws.Db.Reads.Schema.{inserted, Holds}
use sws.Db.Reads.Stored.{select_track-Holds}
use sws.Track.{File, open_track, from_song, to_uchar}

-- The track that is made of a file whose digest is that of its inserted song, where the memory that
-- it is made in holds a duration above 0: it has the song's title, album, year, artist and Spotify identifier and its number as an unsigned char, and nothing
-- is pushed. Its duration is the memory of the song that select_track made, and its favorite and
-- rating are the memory of the track itself, whatever was inserted.
pub open_track-known :
    (world : Text → File) (answer : List Text → Reply) (raw s : Song) (r : Row) (rs : List Row)
    → (world s.path).exists ≡ true
    → select_track answer raw s.path ≡ some (world s.path).song
    → (world s.path).hash ≡ s.md5
    → (world s.path).raw_nonpositive ≡ false
    → s.year < 2 ^ 16
    → answer (create_catalog ∷ track_query s.path ∷ []) ≡ rows (r ∷ rs)
    → Holds (track_query s.path) (inserted s) r
    → open_track world s.path ≡ (
      record {
        path = s.path;
        title = s.title;
        track_no = to_uchar s.track_no;
        album = s.album;
        year = s.year;
        artist = s.artist;
        favorite = (world s.path).raw.favorite;
        rating = (world s.path).raw.rating;
        duration = raw.duration;
        spotify_id = s.spotify_id;
        md5 = s.md5;
        mime_type = (world s.path).mime;
      },
      [],
    )
unfolding open_track from_song
open_track-known world answer raw s r rs f c m d y e h =
    ground (arith, select_track-Holds answer raw s r rs y e h, same_refl s.md5)

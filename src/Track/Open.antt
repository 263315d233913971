-- ===== src/Track/Open.antt =====
-- What opening a track leaves of its path, and the tracks that are made of songs.
use sws.Base.{◌<◌, ◌≡◌, refl, Text, arith, none, some, Option}
use sws.Track.{Track, File, open_track, get_tags, pushes, blank, from_song, to_song, of_song}

path-get_tags : (o : Option sws.Track.Tags) (t : Track) → (get_tags o t).path ≡ t.path
unfolding get_tags
path-get_tags none t = refl
path-get_tags (some g) t = refl

-- Opening a path gives a track with this path, whatever the outside answers.
pub path-open_track : (world : Text → File) (path : Text) → (open_track world path).0.path ≡ path
unfolding open_track from_song
path-open_track world path = ground (
  arith,
  path-get_tags (world path).tags
      (record (sws.Track.fresh (world path).raw path) { mime_type = (world path).mime }),
)

-- A track is made again of its song, where its type is that which libmagic tells and its number is a
-- byte.
of_song-to_song :
    (mime_info : Text → Text) (t : Track)
    → t.track_no < 256
    → t.mime_type ≡ mime_info t.path
    → of_song mime_info (to_song t) ≡ t
unfolding of_song to_song
of_song-to_song mime_info t h e = ground (arith, e)

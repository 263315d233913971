-- ===== src/Tests/Players.antt =====
-- A player with two playlists, and the two ways in which it is driven.
use sws.Base.{◌≡◌, refl, arith, true, false, some, none, Text, [], ◌∷◌, codes, same}
use sws.Base.Texts.{ℤ}
use sws.Db.{Song}
use sws.Track.{File, blank}
use sws.Playlist.{Playlist}
use sws.Player.{Player, at, null, named, find_named, play, play_table, next}
use sws.Player.Lists.{play_table-dangling}
use sws.Player.Reports.{Clock}

abbrev pub unknown : Song
unknown = record {
  path = [];
  title = [];
  track_no = ℤ.pos 0;
  album = [];
  year = 0;
  artist = [];
  favorite = false;
  spotify_id = [];
  rating = 0;
  duration = 0;
  md5 = [];
  found = false;
}

-- A world where each file exists, and the catalogue is empty.
abbrev pub world : Text → File
world path = record {
  exists = true;
  song = unknown;
  hash = codes "d41d8";
  mime = codes "audio/mpeg";
  tags = none;
  raw = blank;
  raw_nonpositive = true;
}

abbrev pub long : Playlist
long = record {
  name = codes "long";
  source = [];
  current = none;
  tracks = codes "/m/a.mp3" ∷ codes "/m/b.mp3" ∷ codes "/m/c.mp3" ∷ [];
}

abbrev short : Playlist
short = record { name = codes "short"; source = []; current = none; tracks = codes "/m/d.mp3" ∷ [] }

-- At the second track of the long list, with the other table next.
abbrev pub second : Player
second = record {
  playlists = long ∷ short ∷ [];
  playlist_tables = codes "long" ∷ codes "short" ∷ [];
  it = at 1;
  current_playlist = long;
  it_track = at 1;
  current_track = blank;
  is_destroyed = false;
  is_playing = false;
  is_paused = false;
  pipeline = null;
  uri = [];
  bus_watch = true;
  effects = [];
}

-- At the first track of the short list, with the long one chosen.
abbrev pub first : Player
first = record second { it = at 0; current_playlist = short; it_track = at 0 }

play_table-dangling_example : play_table world second ≡ none
unfolding named find_named same
play_table-dangling_example =
    play_table-dangling world second 1 (codes "short") short refl (omega arith) refl refl
      (omega arith)

-- The pipeline does not know.
abbrev pub unasked : Clock
unasked = record { query_position = none; query_duration = none }

second-next : (q : Player) × (next world second ≡ some q)
unfolding next play
second-next = (_, refl)

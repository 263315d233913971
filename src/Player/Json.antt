-- ===== src/Player/Json.antt =====
-- The JSON that src/track.cpp, src/playlist.cpp and src/player.cpp write with RapidJSON. A text of JSON
-- is the value that it stands for: what RapidJSON has written it reads back. A double is a number.
use sws.Base.{
  ℕ, Bool, Option, none, some, List, [], ◌∷◌, ◌++◌, if◌then◌else◌, Text, codes, same, ◌>>=◌,
}
use sws.Track.{Track, File, open_track}
use sws.Playlist.{Playlist}
use sws.Player.{Player, peak_next, peak_previous, track_effects}

mutual
  pub data Json : Type 0 where
    null : Json
    string : Text → Json
    number : ℕ → Json
    boolean : Bool → Json
    array : Items → Json
    object : Fields → Json

  pub data Items : Type 0 where
    nil : Items
    cons : Json → Items → Items

  pub data Fields : Type 0 where
    end : Fields
    field : Text → Json → Fields → Fields

-- `FindMember`: the first member of the name.
unfoldable pub find_member : Text → Fields → Option Json
unfolding same
find_member k end = none
find_member k (field j v fs) = if same j k then some v else find_member k fs

-- `AddMember`, which puts the member behind the others.
unfoldable pub add_member : Text → Json → Fields → Fields
add_member k v end = field k v end
add_member k v (field j w fs) = field j w (add_member k v fs)

-- `track::json`
unfoldable pub track_fields : Track → Fields
track_fields t = field (codes "Id") (string t.path) (
    field (codes "Path") (string t.path) (
      field (codes "Title") (string t.title) (
        field (codes "TrackNo") (number t.track_no) (
          field (codes "Album") (string t.album) (
            field (codes "Year") (number t.year) (
              field (codes "Artist") (string t.artist) (
                field (codes "Favorite") (boolean t.favorite) (
                  field (codes "Rating") (number t.rating) (
                    field (codes "Duration") (number t.duration)
                      (field (codes "SporitfyId") (string t.spotify_id) end))))))))))

-- `track::json_doc`
unfoldable pub track_json_doc : Track → Json
unfolding track_fields
track_json_doc t = object (field (codes "Track") (object (track_fields t)) end)

-- The loops over texts.
unfoldable pub strings : List Text → Items
strings [] = nil
strings (s ∷ ss) = cons (string s) (strings ss)

unfoldable pub playlist_names : List Playlist → Items
playlist_names [] = nil
playlist_names (p ∷ ps) = cons (string p.name) (playlist_names ps)

-- `playlist::json`
unfoldable pub playlist_json : Playlist → Json
unfolding strings
playlist_json p = object (
    field (codes "Name") (string p.name) (
      field (codes "Source") (string p.source)
        (field (codes "Tracks") (array (strings p.tracks)) end)))

-- The object of `player::json`, once the two neighbours of the track are made.
unfoldable pub player_fields : Player → (next_t prev_t : Track) → Fields
unfolding track_fields add_member playlist_names
player_fields p next_t prev_t =
    let d =
      add_member (codes "CurrentTrack")
        (object
          (add_member (codes "IsPaused") (boolean p.is_paused) (track_fields p.current_track)))
        end in
    let d = add_member (codes "NextTrack") (object (track_fields next_t)) d in
    let d = add_member (codes "PreviousTrack") (object (track_fields prev_t)) d in
    let d = add_member (codes "CurrentPlaylist") (string p.current_playlist.name) d in
    add_member (codes "Playlists") (array (playlist_names p.playlists)) d

-- `player::json`, with what making the two tracks does. The result is none where the track's iterator
-- points to nothing, or the current track was destroyed.
unfoldable pub player_json : (Text → File) → Player → Option (Json × Player)
player_json world p = do
  next_path ← peak_next p
  prev_path ← peak_previous p
  let next_t = open_track world next_path
  let prev_t = open_track world prev_path
  if p.is_destroyed
      then none
      else some (
        object (player_fields p next_t.0 prev_t.0),
        record p { effects = p.effects ++ (track_effects next_t.1 ++ track_effects prev_t.1) },
      )

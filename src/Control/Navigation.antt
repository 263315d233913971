-- ===== src/Control/Navigation.antt =====
-- All that drives the player, one event after the other: the joystick's events and the pipeline's
-- messages in src/player.cpp, and the clients' messages in src/wsocket.cpp. Each handler runs as a whole.
pub mod Moves
pub mod Tables
pub mod Told
pub mod Answers
pub mod Refinement
use sws.Base.{
  ℕ, ◌+◌, ◌-◌, ◌%◌, ◌==◌, Bool, true, false, not, if◌then◌else◌, Option, none, some, List, [], ◌∷◌,
  Text, ◌>>=◌, length, get_elem?,
}
use sws.Joystick.Actions
use sws.Joystick.Actions.{Action, actions}
use sws.Track.{File}
use sws.Playlist.{Playlist}
use sws.Player.{Player, PipelineState, null, paused, playing, named}
use sws.Player.Reports.{Clock}
use sws.Control.{
  Message, unparsable, no_object, no_action, no_text, action, BusMessage, eos, error, other,
  joystick_event_handler, on_message, bus_delivers,
}

pub data Input : Type 0 where
  joystick : Action → Input
  client : Clock → Message → Input
  bus : BusMessage → Input

-- The handler that an input reaches; what it answers to a client is left out.
unfoldable pub deliver : (Text → File) → Player → Input → Option Player
deliver world p (joystick a) = joystick_event_handler world p a
deliver world p (client c m) = (on_message world c p m).0
deliver world p (bus m) = bus_delivers world p m

unfoldable pub deliver_all : (Text → File) → Player → List Input → Option Player
deliver_all world p [] = some p
deliver_all world p (x ∷ xs) = do q ← deliver world p x; deliver_all world q xs

-- What a user sees and hears of the player: a place on the ring of tables, the playlist, a place on the
-- ring of its tracks, whether the player still follows the ends of tracks; the path of the current
-- track, none where that was destroyed; what the pipeline does, and whether the player takes itself to
-- be paused.
pub record Place : Type 0 where
  pub table : ℕ
  pub playlist : Playlist
  pub position : ℕ
  pub follows : Bool
  pub heard : Option Text
  pub state : PipelineState
  pub paused : Bool

-- The places behind and before one on a ring.
abbrev pub behind : ℕ → ℕ → ℕ
behind n i = (i + 1) % n

abbrev pub before : ℕ → ℕ → ℕ
before n i = if i == 0 then n - 1 else i - 1

-- The track at a position is played, if there is one, and a track that it can be assigned to.
abbrev pub play_track : Place → ℕ → Option Text → Option Text → Option Place
play_track s j none track = none
play_track s j (some old) none = none
play_track s j (some old) (some path) =
    some (record s { position = j; heard = some path; state = playing; paused = false })

abbrev pub play_at : Place → ℕ → Option Place
play_at s j = play_track s j s.heard (get_elem? s.playlist.tracks j)

-- Stopping destroys the current track, if it has a path: a player can be stopped once, and then
-- neither stopped nor played.
abbrev pub silence : Place → Option Place
silence s = elim s.heard [
  | none ↦ none
  | some path ↦
      some (record s { heard = if length path == 0 then some path else none; state = null })
]

abbrev pub hold : Place → Place
hold s = record s { state = if s.paused then playing else paused; paused = not s.paused }

abbrev pub ahead : Place → Option Place
ahead s = play_at s (behind (length s.playlist.tracks) s.position)

abbrev pub back : Place → Option Place
back s = play_at s (before (length s.playlist.tracks) s.position)

module _ (tables : List Text) (playlists : List Playlist) where
  -- Moving on to a table keeps the position.
  abbrev pub switch : Place → ℕ → Option Place
  switch s t = do
    name ← get_elem? tables t
    l ← named playlists name
    play_at (record s { table = t; playlist = l }) s.position

  abbrev pub down : Place → Option Place
  down s = switch s (behind (length tables) s.table)

  abbrev pub up : Place → Option Place
  up s = switch s (before (length tables) s.table)

  -- The joystick cannot pause, and stops behind a move down.
  abbrev pub go_joystick : Action → Place → Option Place
  go_joystick Action.next s = ahead s
  go_joystick Action.previous s = back s
  go_joystick Action.playlist_up s = up s
  go_joystick Action.playlist_down s = do t ← down s; silence t
  go_joystick Action.stop s = silence s
  go_joystick Action.play s = play_at s s.position
  go_joystick _ s = some s

  abbrev pub go_client : Option Action → Place → Option Place
  go_client (some Action.next) s = ahead s
  go_client (some Action.previous) s = back s
  go_client (some Action.playlist_up) s = up s
  go_client (some Action.playlist_down) s = down s
  go_client (some Action.stop) s = silence s
  go_client (some Action.pause) s = some (hold s)
  go_client (some Action.play) s = play_at s s.position
  go_client _ s = some s

  -- What an input makes of the place. A client's text that is JSON but no object has no meaning, and
  -- one that is no JSON asks for the current track.
  abbrev pub go : Input → Place → Option Place
  go (joystick a) s = go_joystick a s
  go (client c unparsable) s = elim s.heard [ none ↦ none | some path ↦ some s ]
  go (client c no_object) s = none
  go (client c (action name)) s = go_client (Actions.find name actions) s
  go (client c _) s = some s
  go (bus eos) s =
      if s.follows then (do t ← ahead s; some (record t { follows = false })) else some s
  go (bus error) s = some (record s { follows = false })
  go (bus other) s = some s

  abbrev pub go_all : List Input → Place → Option Place
  go_all [] s = some s
  go_all (x ∷ xs) s = do t ← go x s; go_all xs t

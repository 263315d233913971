-- ===== src/Joystick/Actions.antt =====
-- include/joystick.h, `ACTION_TYPE`, and src/joystick.cpp, `actions` and `enum_to_string`.
use sws.Base.{Option, none, some, List, [], ◌∷◌, if◌then◌else◌, ◌≡◌, refl, Text, same, codes}

pub data Action : Type 0 where
  noop next previous stop play pause rewind fastforward shuffle favorite add_to_playlist volume_up
        volume_down get_suggestion download menu say playlist_up playlist_down same_artist delete
        confirm eof :
      Action

pub Action-discrete : Discrete Action
Action-discrete = hlevel

-- The map, in the order of its keys.
unfoldable pub actions : List (Text × Action)
actions =
    (codes "add_to_playlist", add_to_playlist)
    ∷ (codes "confirm", confirm)
    ∷ (codes "delete_", delete)
    ∷ (codes "download", download)
    ∷ (codes "eof", eof)
    ∷ (codes "fastforward", fastforward)
    ∷ (codes "favorite", favorite)
    ∷ (codes "get_suggestion", get_suggestion)
    ∷ (codes "menu", menu)
    ∷ (codes "next", next)
    ∷ (codes "noop", noop)
    ∷ (codes "pause", pause)
    ∷ (codes "play", play)
    ∷ (codes "playlist_down", playlist_down)
    ∷ (codes "playlist_up", playlist_up)
    ∷ (codes "previous", previous)
    ∷ (codes "rewind", rewind)
    ∷ (codes "same_artist", same_artist)
    ∷ (codes "say", say)
    ∷ (codes "shuffle", shuffle)
    ∷ (codes "stop", stop)
    ∷ (codes "volume_down", volume_down)
    ∷ (codes "volume_up", volume_up)
    ∷ []

-- `actions.find(name)`
unfoldable pub find : Text → List (Text × Action) → Option Action
unfolding same
find name [] = none
find name ((k, a) ∷ m) = if same k name then some a else find name m

unfoldable pub name_loop : Action → List (Text × Action) → Text
unfolding Action-discrete
name_loop a [] = codes "noop"
name_loop a ((k, b) ∷ m) = elim (Action-discrete b a) [ yes e ↦ k | no e ↦ name_loop a m ]

unfoldable pub enum_to_string : Action → Text
unfolding name_loop actions
enum_to_string a = name_loop a actions

-- Every action has a name of its own, which stands for it.
pub find-enum_to_string : (a : Action) → find (enum_to_string a) actions ≡ some a
unfolding find enum_to_string actions
find-enum_to_string noop = refl
find-enum_to_string _ = refl

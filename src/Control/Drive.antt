-- ===== src/Control/Drive.antt =====
-- The joystick's thread and the player: `monitor` in src/joystick.cpp calls the player's handler within
-- `set_event`, before it reads the next event.
pub mod Clicks
use sws.Base.{Option, none, some, List, [], ◌∷◌, Text}
use sws.Track.{File}
use sws.Joystick.{JsValue, Monitor, Settings, goes_on, out_of_bounds, out_of_range, monitor}
use sws.Player.{Player}
use sws.Control.{joystick_event_handler}

-- The loop of `monitor` over the events that are read: the arrays and the player after them, none where
-- the thread ends or something undefined happens.
unfoldable pub drive :
    (Text → File) → Settings → Monitor → Player → List JsValue → Option (Monitor × Player)
drive world s m p [] = some (m, p)
drive world s m p (j ∷ js) = elim (monitor s m j) [
  | goes_on m' none ↦ drive world s m' p js
  | goes_on m' (some a) ↦ elim (joystick_event_handler world p a) [
    | none ↦ none
    | some q ↦ drive world s m' q js
  ]
  | out_of_bounds ↦ none
  | out_of_range m' ↦ none
]

-- ===== src/Control/Requests.antt =====
-- What a client asks for by the name of an action.
use sws.Base.{◌≡◌, ◌≢◌, refl, ap, ◌∙◌, some, none, List, [], Text, codes, arith}
use sws.Joystick.Actions.{Action, enum_to_string, find-enum_to_string}
use sws.Track.{File}
use sws.Player.{Player}
use sws.Player.Json.{Fields, field, string, object, find_member}
use sws.Player.Reports.{Clock}
use sws.Control.{action, read_message, on_message, client_action, joystick_event_handler}

-- The member "Action" of an object that begins with it.
read_message-action :
    (name : Text) (fs : Fields)
    → read_message (some (object (field (codes "Action") (string name) fs))) ≡ action name
unfolding read_message find_member sws.Base.same
read_message-action name fs = refl

agree :
    (world : Text → File) (p : Player) (a : Action)
    → a ≢ Action.playlist_down
    → a ≢ Action.pause
    → client_action world p a ≡ joystick_event_handler world p a
unfolding client_action joystick_event_handler
agree world p Action.playlist_down h k = absurd (h refl)
agree world p Action.pause h k = absurd (k refl)
agree world p _ h k = refl

-- A message whose first member is "Action" with the name of an action, other than playlist_down and
-- pause, does to the player what the joystick's event of this action does, and nothing is sent back.
pub on_message-joystick :
    (world : Text → File) (c : Clock) (p : Player) (a : Action) (fs : Fields)
    → a ≢ Action.playlist_down
    → a ≢ Action.pause
    → on_message world c p
        (read_message (some (object (field (codes "Action") (string (enum_to_string a)) fs))))
      ≡ (joystick_event_handler world p a, [])
unfolding on_message
on_message-joystick world c p a fs h k =
    rw (read_message-action (enum_to_string a) fs)
      (rw (on_message, find-enum_to_string a) (ap (λ o. (o, [])) (agree world p a h k)))

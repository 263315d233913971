-- ===== src/Control.antt =====
-- Who drives the player: the joystick (`joystick_event_hanlder` in src/player.cpp), the clients
-- (`onMessage` in src/wsocket.cpp), and the end of a track (`on_bus_message` in src/player.cpp).
pub mod Handlers
pub mod Watch
pub mod Requests
pub mod Drive
pub mod Navigation
pub mod Program
pub mod Session
pub mod Listen
use sws.Base.{
  Bool, true, false, not, Option, none, some, List, [], ◌∷◌, if◌then◌else◌, Text, same, codes,
}
use sws.Joystick.Actions
use sws.Joystick.Actions.{Action, actions}
use sws.Track.{File}
use sws.Player
use sws.Player.{Player, stop, pause}
use sws.Player.Json.{Json, string, object, find_member, player_json}
use sws.Player.Reports.{Clock, position_json}

-- A message of a client, as its handler tells them apart: it cannot be parsed or is empty, it is no
-- object, it has no member "Action", this member is no text, or it is this text.
pub data Message : Type 0 where
  unparsable : Message
  no_object : Message
  no_action : Message
  no_text : Message
  action : Text → Message

-- What `HasMember`, `IsString` and `GetString` tell of the value of the text, if it has one.
unfoldable pub read_message : Option Json → Message
unfolding find_member
read_message none = unparsable
read_message (some (object fs)) = elim (find_member (codes "Action") fs) [
  | none ↦ no_action
  | some (string name) ↦ action name
  | some _ ↦ no_text
]
read_message (some _) = no_object

-- A message of the pipeline's bus.
pub data BusMessage : Type 0 where
  eos error other : BusMessage

module _ (world : Text → File) where
  -- The case of `playlist_down` has no break: it goes on with that of `stop`.
  unfoldable pub joystick_event_handler : Player → Action → Option Player
  joystick_event_handler p Action.next = Player.next world p
  joystick_event_handler p Action.previous = Player.previous world p
  joystick_event_handler p Action.playlist_up = Player.playlist_up world p
  joystick_event_handler p Action.playlist_down = elim (Player.playlist_down world p) [
    | none ↦ none
    | some q ↦ stop q
  ]
  joystick_event_handler p Action.stop = stop p
  joystick_event_handler p Action.play = Player.play world p
  joystick_event_handler p _ = some p

  -- The switch of `onMessage`.
  unfoldable pub client_action : Player → Action → Option Player
  client_action p Action.play = Player.play world p
  client_action p Action.stop = stop p
  client_action p Action.pause = some (pause p)
  client_action p Action.next = Player.next world p
  client_action p Action.previous = Player.previous world p
  client_action p Action.playlist_down = Player.playlist_down world p
  client_action p Action.playlist_up = Player.playlist_up world p
  client_action p _ = some p

  -- `onMessage`: the new state, and what is sent back. The members of a value that is no object must
  -- not be asked for.
  unfoldable pub on_message : Clock → Player → Message → Option Player × List Json
  unfolding position_json
  on_message c p unparsable = elim (player_json world p) [
    | none ↦ (none, [])
    | some (j, q) ↦ (some q, j ∷ [])
  ]
  on_message c p no_object = (none, [])
  on_message c p no_action = (some p, [])
  on_message c p no_text = (some p, [])
  on_message c p (action name) = elim (Actions.find name actions) [
    | some a ↦ (client_action p a, [])
    | none ↦
        if same name (codes "Position")
        then (some (position_json c p).1, (position_json c p).0 ∷ [])
        else (some p, [])
  ]

  -- The new state, and the result: whether the watch is kept.
  unfoldable pub on_bus_message : Player → BusMessage → Option Player × Bool
  on_bus_message p eos = (Player.next world p, false)
  on_bus_message p error = (some p, false)
  on_bus_message p other = (some p, true)

  -- The bus calls the function as long as its watch stands, and removes a watch whose function has
  -- returned false.
  unfoldable pub bus_delivers : Player → BusMessage → Option Player
  unfolding on_bus_message
  bus_delivers p m =
      let called = on_bus_message p m in
      if p.bus_watch
      then elim called.0 [ none ↦ none | some q ↦ some (record q { bus_watch = called.1 }) ]
      else some p

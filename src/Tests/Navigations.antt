-- ===== src/Tests/Navigations.antt =====
-- The joystick, a client and the pipeline drive one player, and a program from its start on.
use sws.Base.{true, false, Option, some, List, [], ◌∷◌, codes}
use sws.Joystick.Actions
use sws.Joystick.Actions.{Action}
use sws.Player.{Player, null, paused}
use sws.Control.{unparsable, action, eos}
use sws.Control.Navigation.{Input, joystick, client, bus, Place}
use sws.Tests.Players.{long, unasked}

abbrev place : Place
place = record {
  table = 1;
  playlist = long;
  position = 1;
  follows = true;
  heard = some [];
  state = null;
  paused = false;
}

-- The other table is the first one, whose playlist is the long one.
abbrev inputs : List Input
inputs =
    joystick Action.next
    ∷ client unasked unparsable
    ∷ client unasked (action (codes "playlist_up"))
    ∷ bus eos
    ∷ bus eos
    ∷ client unasked (action (codes "pause"))
    ∷ []

-- ===== src/Control/Navigation/Refinement.antt =====
-- The player is a refinement of its place, whoever drives it.
use sws.Base.{Option, none, some, List, [], ◌∷◌, Text, ◌>>=◌}
use sws.Track.{File}
use sws.Playlist.{Playlist}
use sws.Player.{Player}
use sws.Control.Navigation.{Input, deliver, deliver_all, Place, go, go_all}
use sws.Control.Navigation.Moves.{StandsAt, Refines}
use sws.Control.Navigation.Answers.{Refines-deliver}

pub Refines-bind :
    (tables : List Text) (playlists : List Playlist) (o : Option Player) (t : Option Place)
    (f : Player → Option Player) (g : Place → Option Place)
    → Refines tables playlists o t
    → ((p : Player) (s : Place)
        → StandsAt tables playlists p s
        → Refines tables playlists (f p) (g s))
    → Refines tables playlists (o >>= f) (t >>= g)
Refines-bind tables playlists none none f g h k = h
Refines-bind tables playlists none (some s) f g h k = absurd h
Refines-bind tables playlists (some p) none f g h k = absurd h
Refines-bind tables playlists (some p) (some s) f g h k = k p s h

pub deliver_all-Refines :
    (world : Text → File) (tables : List Text) (playlists : List Playlist) (p : Player) (s : Place)
    (xs : List Input)
    → StandsAt tables playlists p s
    → Refines tables playlists (deliver_all world p xs) (go_all tables playlists xs s)
unfolding deliver_all
deliver_all-Refines world tables playlists p s [] h = h
deliver_all-Refines world tables playlists p s (x ∷ xs) h =
    Refines-bind tables playlists (deliver world p x) (go tables playlists x s)
      (λ q. deliver_all world q xs) (go_all tables playlists xs)
      (Refines-deliver world tables playlists p s x h)
      (λ q t. deliver_all-Refines world tables playlists q t xs)

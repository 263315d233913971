-- ===== src/Control/Navigation/Answers.antt =====
-- The player's place when one input is handled.
use sws.Base.{
  ◌≡◌, refl, ap, sym, ◌∙◌, Bool, true, false, if◌then◌else◌, Option, none, some, List, [], ◌∷◌,
  Text, arith, same, codes, ◌>>=◌, inl, inr,
}
use sws.Joystick.Actions
use sws.Joystick.Actions.{Action, actions}
use sws.Track.{File}
use sws.Playlist.{Playlist}
use sws.Player.Json.{Json}
use sws.Player.Reports.{Clock, position_json, duratin}
use sws.Player
use sws.Player.{Player, stop, pause}
use sws.Control.{
  Message, unparsable, no_object, no_action, no_text, action, BusMessage, eos, error, other,
  client_action, joystick_event_handler, on_message, bus_delivers, on_bus_message,
}
use sws.Control.Navigation.{
  Input, joystick, client, bus, deliver, Place, go, go_client, go_joystick, ahead, silence,
}
use sws.Control.Navigation.Moves.{
  StandsAt, Refines, heard_of, heard-StandsAt, seen-StandsAt, seen, sound, Refines-next,
  Refines-previous, Refines-play, Refines-stop, StandsAt-pause,
}
use sws.Control.Navigation.Tables.{Refines-playlist_down, Refines-playlist_up}
use sws.Control.Navigation.Told.{player_json-StandsAt}

module _ (world : Text → File) (tables : List Text) (playlists : List Playlist) where
  Refines-client_action :
      (p : Player) (s : Place) (a : Action)
      → StandsAt tables playlists p s
      → Refines tables playlists (client_action world p a) (go_client tables playlists (some a) s)
  unfolding client_action
  Refines-client_action p s Action.play h = Refines-play world tables playlists p s h
  Refines-client_action p s Action.stop h = Refines-stop world tables playlists p s h
  Refines-client_action p s Action.pause h = StandsAt-pause world tables playlists p s h
  Refines-client_action p s Action.next h = Refines-next world tables playlists p s h
  Refines-client_action p s Action.previous h = Refines-previous world tables playlists p s h
  Refines-client_action p s Action.playlist_down h =
      Refines-playlist_down world tables playlists p s h
  Refines-client_action p s Action.playlist_up h = Refines-playlist_up world tables playlists p s h
  Refines-client_action p s _ h = h

  stopped :
      (o : Option Player) (t : Option Place)
      → Refines tables playlists o t
      → Refines tables playlists (elim o [ none ↦ none | some q ↦ stop q ]) (t >>= silence)
  stopped none none h = h
  stopped none (some t) h = absurd h
  stopped (some q) none h = absurd h
  stopped (some q) (some t) h = Refines-stop world tables playlists q t h

  Refines-joystick :
      (p : Player) (s : Place) (a : Action)
      → StandsAt tables playlists p s
      → Refines tables playlists
          (joystick_event_handler world p a)
          (go_joystick tables playlists a s)
  unfolding joystick_event_handler
  Refines-joystick p s Action.play h = Refines-play world tables playlists p s h
  Refines-joystick p s Action.stop h = Refines-stop world tables playlists p s h
  Refines-joystick p s Action.next h = Refines-next world tables playlists p s h
  Refines-joystick p s Action.previous h = Refines-previous world tables playlists p s h
  Refines-joystick p s Action.playlist_down h =
      stopped _ _ (Refines-playlist_down world tables playlists p s h)
  Refines-joystick p s Action.playlist_up h = Refines-playlist_up world tables playlists p s h
  Refines-joystick p s _ h = h

  StandsAt-position_json :
      (p : Player) (s : Place) (c : Clock)
      → StandsAt tables playlists p s
      → StandsAt tables playlists (position_json c p).1 s
  unfolding position_json duratin
  StandsAt-position_json p s c h = seen-StandsAt tables playlists p (position_json c p).1 s told h
    where
      told : seen (position_json c p).1 ≡ seen p
      told = ground arith

  Refines-client :
      (p : Player) (s : Place) (c : Clock) (m : Message)
      → StandsAt tables playlists p s
      → Refines tables playlists (on_message world c p m).0 (go tables playlists (client c m) s)
  unfolding on_message
  Refines-client p s c unparsable h = elim (player_json-StandsAt world tables playlists p s h) [
    | inl (d, e) ↦ rw (on_message, e, heard-StandsAt tables playlists p s h, d) tt
    | inr (d, j, q, e, t) ↦
        rw (on_message, e) (told d q t s.heard (heard-StandsAt tables playlists p s h))
  ]
    where
      told :
          p.is_destroyed ≡ false
          → (q : Player) → StandsAt tables playlists q s
          → (o : Option Text) → o ≡ heard_of p.is_destroyed p.current_track.path
          → Refines tables playlists (some q) (elim o [ none ↦ none | some path ↦ some s ])
      told d q t none e = absurd (ground (arith, rw d at e))
      told d q t (some path) e = t
  Refines-client p s c no_object h = _
  Refines-client p s c no_action h = h
  Refines-client p s c no_text h = h
  Refines-client p s c (action name) h = found (Actions.find name actions) refl
    where
      answer : Bool → Option Player × List Json
      answer b =
          if b then (some (position_json c p).1, (position_json c p).0 ∷ []) else (some p, [])

      asked : (b : Bool) → Refines tables playlists (answer b).0 (some s)
      asked true = StandsAt-position_json p s c h
      asked false = h

      found :
          (o : Option Action)
          → Actions.find name actions ≡ o
          → Refines tables playlists
              (on_message world c p (action name)).0
              (go_client tables playlists (Actions.find name actions) s)
      found none e = rw (on_message, e) (asked (same name (codes "Position")))
      found (some a) e = rw (on_message, e) (Refines-client_action p s a h)

  watched :
      (b : Bool) (o : Option Player) (t : Option Place)
      → Refines tables playlists o t
      → Refines tables playlists
          (elim o [ none ↦ none | some q ↦ some (record q { bus_watch = b }) ])
          (t >>= (λ s. some (record s { follows = b })))
  watched b none none h = h
  watched b none (some s) h = absurd h
  watched b (some p) none h = absurd h
  watched b (some p) (some s) h = record {
    kept = ap (λ x. (x.0, x.1, x.2, b)) h.kept;
    sounds = h.sounds;
    table_inside = h.table_inside;
    playlist = h.playlist;
    position = h.position;
    inside = h.inside;
  }

  abbrev unwatched : Option Player → Option Player
  unwatched o = elim o [ none ↦ none | some q ↦ some (record q { bus_watch = false }) ]

  bus_delivers-eos :
      (p : Player) → p.bus_watch ≡ true → bus_delivers world p eos ≡ unwatched (Player.next world p)
  unfolding bus_delivers on_bus_message
  bus_delivers-eos p w = ap (λ b. if b then unwatched (Player.next world p) else some p) w

  Refines-equal :
      (o o' : Option Player) (t t' : Option Place)
      → o ≡ o'
      → t ≡ t'
      → Refines tables playlists o' t'
      → Refines tables playlists o t
  Refines-equal o o' t t' e f h = rw (e, f) h

  Refines-bus :
      (p : Player) (s : Place) (m : BusMessage)
      → StandsAt tables playlists p s
      → Refines tables playlists (bus_delivers world p m) (go tables playlists (bus m) s)
  unfolding bus_delivers on_bus_message
  Refines-bus p s m h = go_on m p.bus_watch refl
    where
      same_watch : p.bus_watch ≡ s.follows
      same_watch = ap (λ x. x.3) h.kept

      unfollowed : Place → Option Place
      unfollowed t = some (record t { follows = false })

      rewatched :
          (b : Bool) → p.bus_watch ≡ b → StandsAt tables playlists (record p { bus_watch = b }) s
      rewatched b w =
          seen-StandsAt tables playlists p (record p { bus_watch = b }) s
            (ap
              (λ c. (
                (p.playlists, p.playlist_tables, p.it, c),
                sound p,
                p.current_playlist,
                p.it_track,
              ))
              (sym w))
            h

      go_on :
          (m : BusMessage) (b : Bool)
          → p.bus_watch ≡ b
          → Refines tables playlists (bus_delivers world p m) (go tables playlists (bus m) s)
      go_on eos true w =
          Refines-equal _ (unwatched (Player.next world p)) _ (ahead s >>= unfollowed)
            (bus_delivers-eos p w)
            (ap (λ b. if b then ahead s >>= unfollowed else some s) (sym same_watch ∙ w))
            (watched false _ (ahead s) (Refines-next world tables playlists p s h))
      go_on eos false w =
          rw (sym same_watch ∙ w, bus_delivers, w) (watched false (some p) (some s) h)
      go_on error true w = rw (bus_delivers, w) (watched false (some p) (some s) h)
      go_on error false w = rw (bus_delivers, w) (watched false (some p) (some s) h)
      go_on other true w = rw (bus_delivers, w) (rewatched true w)
      go_on other false w = rw (bus_delivers, w) (rewatched false w)

  pub Refines-deliver :
      (p : Player) (s : Place) (x : Input)
      → StandsAt tables playlists p s
      → Refines tables playlists (deliver world p x) (go tables playlists x s)
  unfolding deliver
  Refines-deliver p s (joystick a) h = Refines-joystick p s a h
  Refines-deliver p s (client c m) h = Refines-client p s c m h
  Refines-deliver p s (bus m) h = Refines-bus p s m h

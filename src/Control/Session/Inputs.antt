-- ===== src/Control/Session/Inputs.antt =====
-- What every input pushes, of src/player.cpp and src/wsocket.cpp.
use sws.Base.{
  not, length, ℕ, ◌≡◌, refl, ap, ◌∙◌, Bool, true, false, ◌==◌, if◌then◌else◌, Option, none, some,
  List, [], ◌∷◌, ◌++◌, Text, codes, same, ℤ,
}
use sws.Base.Texts.{ℤ}
use sws.Db.Statements.{update_path_duration}
use sws.Joystick.Actions
use sws.Joystick.Actions.{Action, actions}
use sws.Track.{File, open_track, emptied}
use sws.Player
use sws.Player.{Player, signal, stop, pause, track_effects, statements, peak_next, peak_previous}
use sws.Player.Json.{Json, object, player_fields, player_json}
use sws.Player.Reports.{Clock, position_json, duratin}
use sws.Player.Sessions.{Sqlite, executed}
use sws.Player.Sessions.Position.{IsPlainWorld, executed-append, current-opened}
use sws.Control.{
  Message, unparsable, no_object, no_action, no_text, action, BusMessage, eos, error, other,
  client_action, joystick_event_handler, on_message, bus_delivers, on_bus_message,
}
use sws.Control.Navigation.{Input, joystick, client, bus, deliver, deliver_all}
use sws.Control.Session.{Every, Every->>=, IsSaved, IsQuiet, IsSaved-quiet}
use sws.Control.Session.Plays.{
  IsSaved-play, IsSaved-next, IsSaved-previous, IsSaved-playlist_up, IsSaved-playlist_down,
}

module _ {Db : Type 0} (S : Sqlite Db) (d : Db) (world : Text → File) (plain : IsPlainWorld world)
    (before : Text → Option ℤ) where
  IsSaved-stop : (p : Player) → IsSaved S d before p → Every (IsSaved S d before) (stop p)
  unfolding stop
  IsSaved-stop p h = by_life p.is_destroyed
    where
      stopped : Player
      stopped =
          let empty = length p.current_track.path == 0 in
          record p {
            pipeline = Player.null;
            current_track = if empty then p.current_track else emptied p.current_track;
            is_destroyed = not empty;
            is_playing = false;
            effects = p.effects ++ signal ∷ [];
          }

      by_life : (b : Bool) → Every (IsSaved S d before) (if b then none else some stopped)
      by_life true = tt
      by_life false =
          IsSaved-quiet S d before p stopped (signal ∷ []) refl (λ e m. refl) refl refl h

  IsSaved-pause : (p : Player) → IsSaved S d before p → IsSaved S d before (pause p)
  unfolding pause
  IsSaved-pause p h =
      IsSaved-quiet S d before p (pause p) (signal ∷ []) refl (λ e m. refl) refl refl h

  IsSaved-client_action :
      (p : Player) (a : Action)
      → IsSaved S d before p
      → Every (IsSaved S d before) (client_action world p a)
  unfolding client_action
  IsSaved-client_action p Action.play h = IsSaved-play S d world plain before p h.0
  IsSaved-client_action p Action.stop h = IsSaved-stop p h
  IsSaved-client_action p Action.pause h = IsSaved-pause p h
  IsSaved-client_action p Action.next h = IsSaved-next S d world plain before p h.0
  IsSaved-client_action p Action.previous h = IsSaved-previous S d world plain before p h.0
  IsSaved-client_action p Action.playlist_down h =
      IsSaved-playlist_down S d world plain before p h.0
  IsSaved-client_action p Action.playlist_up h = IsSaved-playlist_up S d world plain before p h.0
  IsSaved-client_action p _ h = h

  Every-map :
      (o : Option Player) (f : Player → Player)
      → ((q : Player) → IsSaved S d before q → IsSaved S d before (f q))
      → Every (IsSaved S d before) o
      → Every (IsSaved S d before) (elim o [ none ↦ none | some q ↦ some (f q) ])
  Every-map none f k h = h
  Every-map (some q) f k h = k q h

  Every-after :
      (o : Option Player) (f : Player → Option Player)
      → ((q : Player) → IsSaved S d before q → Every (IsSaved S d before) (f q))
      → Every (IsSaved S d before) o
      → Every (IsSaved S d before) (elim o [ none ↦ none | some q ↦ f q ])
  Every-after none f k h = h
  Every-after (some q) f k h = k q h

  IsSaved-joystick :
      (p : Player) (a : Action)
      → IsSaved S d before p
      → Every (IsSaved S d before) (joystick_event_handler world p a)
  unfolding joystick_event_handler
  IsSaved-joystick p Action.play h = IsSaved-play S d world plain before p h.0
  IsSaved-joystick p Action.stop h = IsSaved-stop p h
  IsSaved-joystick p Action.next h = IsSaved-next S d world plain before p h.0
  IsSaved-joystick p Action.previous h = IsSaved-previous S d world plain before p h.0
  IsSaved-joystick p Action.playlist_down h =
      Every-after _ stop IsSaved-stop (IsSaved-playlist_down S d world plain before p h.0)
  IsSaved-joystick p Action.playlist_up h = IsSaved-playlist_up S d world plain before p h.0
  IsSaved-joystick p _ h = h

  Every-any : {A : Type 0} (o : Option A) → Every (λ a. Unit) o
  Every-any none = tt
  Every-any (some a) = tt

  IsQuiet-told :
      (a b : Text)
      → IsQuiet S d (track_effects (open_track world a).1 ++ track_effects (open_track world b).1)
  IsQuiet-told a b e m =
      let first = track_effects (open_track world a).1 in
      let second = track_effects (open_track world b).1 in
      ap (λ x. S.current x m) (executed-append S first second e)
      ∙ current-opened S world b (executed S first e) m plain
      ∙ current-opened S world a e m plain

  -- A client that asks is told, with the two neighbours opened.
  IsSaved-player_json :
      (p : Player)
      → IsSaved S d before p
      → Every (λ (x : Json × Player). IsSaved S d before x.1) (player_json world p)
  unfolding player_json
  IsSaved-player_json p h =
      Every->>= (λ a. Unit) (λ (x : Json × Player). IsSaved S d before x.1) (peak_next p) _
        (Every-any (peak_next p))
        (λ a u.
          Every->>= (λ b. Unit) (λ (x : Json × Player). IsSaved S d before x.1) (peak_previous p) _
            (Every-any (peak_previous p)) (λ b v. by_life a b p.is_destroyed))
    where
      told : Text → Text → Player
      told a b = record p {
        effects =
            p.effects
            ++ (track_effects (open_track world a).1 ++ track_effects (open_track world b).1);
      }

      answer : Text → Text → Json
      answer a b = object (player_fields p (open_track world a).0 (open_track world b).0)

      by_life :
          (a b : Text) (l : Bool)
          → Every
              (λ (x : Json × Player). IsSaved S d before x.1)
              (if l then none else some (answer a b, told a b))
      by_life a b true = tt
      by_life a b false =
          IsSaved-quiet S d before p (told a b)
            (track_effects (open_track world a).1 ++ track_effects (open_track world b).1) refl
            (IsQuiet-told a b) refl refl h

  IsSaved-position_json :
      (p : Player) (c : Clock) → IsSaved S d before p → IsSaved S d before (position_json c p).1
  unfolding position_json duratin update_path_duration
  IsSaved-position_json p c h = by_answer c.query_duration
    where
      changed : ℕ → Player
      changed dur = record p {
        effects = p.effects ++ statements (update_path_duration p.current_track.path dur);
      }

      by_test : (dur : ℕ) (b : Bool) → IsSaved S d before (if b then p else changed dur)
      by_test dur true = h
      by_test dur false =
          IsSaved-quiet S d before p (changed dur)
            (statements (update_path_duration p.current_track.path dur)) refl
            (λ e m. S.duration_updated p.current_track.path dur e m) refl refl h

      by_answer :
          (o : Option ℕ) → IsSaved S d before (position_json (record c { query_duration = o }) p).1
      by_answer none = h
      by_answer (some dur) = by_test dur (dur == p.current_track.duration)

  IsSaved-client :
      (p : Player) (c : Clock) (m : Message)
      → IsSaved S d before p
      → Every (IsSaved S d before) (on_message world c p m).0
  unfolding on_message
  IsSaved-client p c unparsable h = by_result (player_json world p) (IsSaved-player_json p h)
    where
      answered : Option (Json × Player) → Option Player × List Json
      answered o = elim o [ none ↦ (none, []) | some (j, q) ↦ (some q, j ∷ []) ]

      by_result :
          (o : Option (Json × Player))
          → Every (λ (x : Json × Player). IsSaved S d before x.1) o
          → Every (IsSaved S d before) (answered o).0
      by_result none k = tt
      by_result (some (j, q)) k = k
  IsSaved-client p c no_object h = tt
  IsSaved-client p c no_action h = h
  IsSaved-client p c no_text h = h
  IsSaved-client p c (action name) h = found (Actions.find name actions) refl
    where
      answer : Bool → Option Player × List Json
      answer b =
          if b then (some (position_json c p).1, (position_json c p).0 ∷ []) else (some p, [])

      asked : (b : Bool) → Every (IsSaved S d before) (answer b).0
      asked true = IsSaved-position_json p c h
      asked false = h

      found :
          (o : Option Action)
          → Actions.find name actions ≡ o
          → Every (IsSaved S d before) (on_message world c p (action name)).0
      found none e = rw (on_message, e) (asked (same name (codes "Position")))
      found (some a) e = rw (on_message, e) (IsSaved-client_action p a h)

  IsSaved-bus :
      (p : Player) (m : BusMessage)
      → IsSaved S d before p
      → Every (IsSaved S d before) (bus_delivers world p m)
  unfolding bus_delivers on_bus_message
  IsSaved-bus p m h = by_watch m p.bus_watch
    where
      called : BusMessage → Option Player × Bool
      called m = on_bus_message world p m

      by_watch :
          (m : BusMessage) (b : Bool)
          → Every (IsSaved S d before) (
              if b
              then elim (called m).0 [
                | none ↦ none
                | some q ↦ some (record q { bus_watch = (called m).1 })
              ]
              else some p)
      by_watch m false = h
      by_watch eos true =
          Every-map (Player.next world p) (λ q. record q { bus_watch = false }) (λ q k. k)
            (IsSaved-next S d world plain before p h.0)
      by_watch error true = h
      by_watch other true = h

  IsSaved-deliver :
      (p : Player) (x : Input)
      → IsSaved S d before p
      → Every (IsSaved S d before) (deliver world p x)
  unfolding deliver
  IsSaved-deliver p (joystick a) h = IsSaved-joystick p a h
  IsSaved-deliver p (client c m) h = IsSaved-client p c m h
  IsSaved-deliver p (bus m) h = IsSaved-bus p m h

  -- Whatever comes in, the row of the current playlist keeps up with the position.
  pub IsSaved-deliver_all :
      (p : Player) (xs : List Input)
      → IsSaved S d before p
      → Every (IsSaved S d before) (deliver_all world p xs)
  unfolding deliver_all
  IsSaved-deliver_all p [] h = h
  IsSaved-deliver_all p (x ∷ xs) h =
      Every->>= (IsSaved S d before) (IsSaved S d before) (deliver world p x)
        (λ q. deliver_all world q xs) (IsSaved-deliver p x h) (λ q k. IsSaved-deliver_all q xs k)

-- ===== src/Control/Program.antt =====
-- main.cpp: the player is constructed and started, and is then driven by the joystick, the clients and
-- the pipeline. The clients come in where the main loop of `start` has ended, behind which the server
-- starts.
use sws.Base.{
  ℕ, ◌<◌, ◌≡◌, ◌⊎◌, inl, inr, refl, ◌∙◌, true, false, Option, none, some, List, [], ◌∷◌, length,
  arith, Text, ◌>>=◌, ltb, if◌then◌else◌, sym,
}
use sws.Base.Texts.{ℤ}
use sws.Track.{File}
use sws.Playlist.{Playlist}
use sws.Player
use sws.Player.{Player, play, deref}
use sws.Player.Steps.{play-none}
use sws.Player.Startup.{Outside, player, start, begin_at, advance, await_tables}
use sws.Player.Startup.Resumes.{player-seen}
use sws.Control.Navigation.{Input, deliver_all, Place, go_all, play_at}
use sws.Control.Navigation.Moves.{StandsAt, Refines, seen-StandsAt, Refines-play}
use sws.Control.Navigation.Refinement.{deliver_all-Refines, Refines-bind}

unfoldable pub program : (Text → File) → Outside → List Input → Option Player
program world o xs = do p ← player o; q ← start world p; deliver_all world q xs

-- Where the player begins: at the first table, at the saved position of the current playlist if that is
-- inside it, and at its first track otherwise.
abbrev pub saved : ℕ → ℤ → ℕ
saved size (ℤ.pos n) = if ltb n size then n else 0
saved size (ℤ.negsuc n) = 0

abbrev pub opening : Outside → Player → Place
opening o p = record {
  table = 0;
  playlist = p.current_playlist;
  position = saved (length p.current_playlist.tracks) (o.current p.current_playlist.name);
  follows = true;
  heard = some [];
  state = Player.null;
  paused = false;
}

-- The track at which it begins is played.
abbrev pub begun : Outside → Player → Option Place
begun o p = play_at (opening o p) (opening o p).position

await_tables-inside :
    (answers : List (List Text)) (ts : List Text) → await_tables answers ≡ some ts → 0 < length ts
unfolding await_tables
await_tables-inside [] ts h = absurd (ground arith)
await_tables-inside ([] ∷ answers) ts h = await_tables-inside answers ts h
await_tables-inside ((t ∷ us) ∷ answers) ts h =
    let e : t ∷ us ≡ ts = ground arith in rw (sym e) (omega arith)

player-tables :
    (o : Outside) (p : Player) → player o ≡ some p → await_tables o.tables ≡ some p.playlist_tables
unfolding player begin_at
player-tables o p h = ground (arith, h)

player-inside : (o : Outside) (p : Player) → player o ≡ some p → 0 < length p.playlist_tables
player-inside o p h = await_tables-inside o.tables p.playlist_tables (player-tables o p h)

advance-saved : (size : ℕ) (z : ℤ) → advance size z ≡ Player.at (saved size z)
advance-saved size (ℤ.pos n) = ground arith
advance-saved size (ℤ.negsuc n) = refl

saved-inside : (size : ℕ) (z : ℤ) → 0 < size → saved size z < size
saved-inside size (ℤ.pos n) h = ground (arith, h)
saved-inside size (ℤ.negsuc n) h = h

player-StandsAt :
    (o : Outside) (p : Player)
    → player o ≡ some p
    → 0 < length p.current_playlist.tracks
    → StandsAt p.playlist_tables p.playlists p (opening o p)
player-StandsAt o p h l =
    let (it, watch, track, alive, path, state, resumed) = player-seen o p h in
    record {
      kept = rw (it, watch) refl;
      sounds = rw (alive, path, state, resumed) refl;
      table_inside = player-inside o p h;
      playlist = refl;
      position =
          track
          ∙ advance-saved (length p.current_playlist.tracks) (o.current p.current_playlist.name);
      inside =
          saved-inside (length p.current_playlist.tracks) (o.current p.current_playlist.name) l;
    }

program-some :
    (world : Text → File) (o : Outside) (xs : List Input) (p : Player)
    → player o ≡ some p
    → program world o xs ≡ (start world p >>= (λ q. deliver_all world q xs))
unfolding program
program-some world o xs p e = rw (program, e) refl

start-Refines :
    (world : Text → File) (tables : List Text) (playlists : List Playlist) (p : Player) (s : Place)
    → StandsAt tables playlists p s
    → Refines tables playlists (start world p) (play_at s s.position)
unfolding start
start-Refines world tables playlists p s h =
    Refines-play world tables playlists (record p { is_playing = false }) s
      (seen-StandsAt tables playlists p (record p { is_playing = false }) s refl h)

deref-advance : (z : ℤ) → deref [] (advance 0 z) ≡ none
deref-advance (ℤ.pos n) = ground arith
deref-advance (ℤ.negsuc n) = refl

start-empty :
    (world : Text → File) (o : Outside) (p : Player)
    → player o ≡ some p
    → p.current_playlist.tracks ≡ []
    → start world p ≡ none
unfolding start
start-empty world o p h e =
    play-none world (record p { is_playing = false })
      (rw ((player-seen o p h).2, e) (deref-advance (o.current p.current_playlist.name)))

-- The program of a player that was made.
pub made-Refines :
    (world : Text → File) (o : Outside) (xs : List Input) (p : Player)
    → player o ≡ some p
    → ((p.current_playlist.tracks ≡ []) × (program world o xs ≡ none))
      ⊎ Refines p.playlist_tables p.playlists
          (program world o xs)
          (begun o p >>= go_all p.playlist_tables p.playlists xs)
made-Refines world o xs p e = by_tracks p e p.current_playlist.tracks refl
  where
    by_tracks :
        (p : Player)
        → player o ≡ some p
        → (ts : List Text) → p.current_playlist.tracks ≡ ts
        → ((p.current_playlist.tracks ≡ []) × (program world o xs ≡ none))
          ⊎ Refines p.playlist_tables p.playlists
              (program world o xs)
              (begun o p >>= go_all p.playlist_tables p.playlists xs)
    by_tracks p e [] t = inl (t, program-some world o xs p e ∙ rw (start-empty world o p e t) refl)
    by_tracks p e (u ∷ us) t =
        let h = player-StandsAt o p e (rw t (omega arith)) in
        rw (program-some world o xs p e) (
          inr (
            Refines-bind p.playlist_tables p.playlists (start world p) (begun o p)
              (λ q. deliver_all world q xs) (go_all p.playlist_tables p.playlists xs)
              (start-Refines world p.playlist_tables p.playlists p (opening o p) h)
              (λ q s k. deliver_all-Refines world p.playlist_tables p.playlists q s xs k)))

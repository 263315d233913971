-- ===== src/Control/Session/Continues.antt =====
-- A run of the program, and the next one.
use sws.Base.{
  ◌>>=◌, ℕ, ◌<◌, ◌^◌, ◌≡◌, refl, ap, sym, ◌∙◌, inl, inr, false, Option, none, some, List, length,
  Text, ℤ, arith,
}
use sws.Base.Texts.{ℤ}
use sws.Track.{File}
use sws.Db.Reads.{get_playlist_current}
use sws.Playlist.{Playlist}
use sws.Player
use sws.Player.{Player, index}
use sws.Player.Steps.{PlaysAt}
use sws.Player.Startup.{Outside, player, start}
use sws.Player.Startup.Resumes.{player-Resumes}
use sws.Player.Sessions.{Sqlite, executed, overwrite}
use sws.Player.Sessions.Position.{IsPlainWorld}
use sws.Player.Sessions.Resume.{Resumes-PlaysAt, position_after, position_after-lt, read_after}
use sws.Control.Navigation.{Input, deliver_all, Place, go_all}
use sws.Control.Navigation.Moves.{Refines}
use sws.Control.Program.{program, begun, made-Refines}
use sws.Control.Session.{Every, Every->>=, Every-some, row, IsSaved}
use sws.Control.Session.Plays.{IsSaved-play}
use sws.Control.Session.Inputs.{IsSaved-deliver_all}

-- Where the program has not run into undefined behaviour, the player stands inside its playlist.
program-inside :
    (world : Text → File) (o : Outside) (xs : List Input) (p q : Player)
    → player o ≡ some p
    → program world o xs ≡ some q
    → (i : ℕ) × (q.it_track ≡ Player.at i) × (i < length q.current_playlist.tracks)
program-inside world o xs p q h e = elim (made-Refines world o xs p h) [
  | inl empty ↦ absurd (none≢some (sym empty.1 ∙ e))
  | inr r ↦ placed _ _ (begun o p >>= go_all _ _ xs) (rw e at r)
]
  where
    none≢some : none ≡ some q → ⊥
    none≢some n = ground (arith, n)

    placed :
        (tables : List Text) (playlists : List Playlist) (t : Option Place)
        → Refines tables playlists (some q) t
        → (i : ℕ) × (q.it_track ≡ Player.at i) × (i < length q.current_playlist.tracks)
    placed tables playlists none r = absurd r
    placed tables playlists (some s) r = (s.position, r.position, rw r.playlist r.inside)

module _ {Db : Type 0} (S : Sqlite Db) (d : Db) (world : Text → File) (plain : IsPlainWorld world)
    (o : Outside) (p : Player) (made : player o ≡ some p) where
  IsSaved-start : Every (IsSaved S d (row S d p)) (start world p)
  unfolding start
  IsSaved-start =
      IsSaved-play S d world plain (row S d p) (record p { is_playing = false }) (λ m z. refl)

  IsSaved-program : (xs : List Input) → Every (IsSaved S d (row S d p)) (program world o xs)
  unfolding program
  IsSaved-program xs = rw made (
      Every->>= (IsSaved S d (row S d p)) (IsSaved S d (row S d p)) (start world p)
        (λ q. deliver_all world q xs) IsSaved-start
        (λ q k. IsSaved-deliver_all S d world plain (row S d p) q xs k))

-- A run of the program that met nothing undefined ends at a track of its playlist, whatever the
-- joystick, the clients and the pipeline sent, and in whatever order. Once the database has executed
-- what was pushed, the next run that is given this playlist starts with that track, if `_playlist` had
-- a row for the playlist after the first constructor; without one, it starts with the first track. The
-- playlist has less than 2^31 tracks, the texts that the statements repeat hold no quote, and the
-- database behaves as stated in `Sqlite`.
pub program-continues :
    {Db : Type 0} (S : Sqlite Db) (world : Text → File) (d : Db) (o : Outside) (xs : List Input)
    (p q : Player) (o' : Outside) (p' : Player)
    → IsPlainWorld world
    → player o ≡ some p
    → program world o xs ≡ some q
    → length q.current_playlist.tracks < 2 ^ 31
    → player o' ≡ some p'
    → p'.current_playlist ≡ q.current_playlist
    → o'.current q.current_playlist.name
      ≡ get_playlist_current (λ s. S.reply s (executed S q.effects d)) q.current_playlist.name
    → (i : ℕ) × (r : Player) × (q.it_track ≡ Player.at i)
      × (start world p' ≡ some r)
      × PlaysAt r (position_after (S.current (executed S p.effects d) q.current_playlist.name) i)
program-continues S world d o xs p q o' p' plain made ran short made' same_list told =
    let name = q.current_playlist.name in
    let before = S.current (executed S p.effects d) name in
    let (i, e, inside) = program-inside world o xs p q made ran in
    let saved =
      Every-some (IsSaved S d (row S d p)) (program world o xs) q ran
        (IsSaved-program S d world plain o p made xs) in
    let written : S.current (executed S q.effects d) name ≡ overwrite (ℤ.pos i) before =
      saved.1 ∙ ap (λ c. overwrite (ℤ.pos (index c)) before) e in
    let resumes = player-Resumes world o' p' made' in
    let opened : o'.current p'.current_playlist.name ≡ ℤ.pos (position_after before i) =
      ap (λ (l : Playlist). o'.current l.name) same_list
      ∙ told
      ∙ read_after S (executed S q.effects d) name before i written (omega arith) in
    let (r, starts, plays) =
      Resumes-PlaysAt world p' (o'.current p'.current_playlist.name) (position_after before i)
        opened (rw same_list (position_after-lt before i (length q.current_playlist.tracks) inside))
        resumes in
    (i, r, e, starts, plays)

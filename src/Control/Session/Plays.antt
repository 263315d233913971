-- ===== src/Control/Session/Plays.antt =====
-- Playing, moving on and moving to another playlist push the position.
use sws.Base.{
  ◌≡◌, refl, ap, ◌∙◌, Bool, true, false, Option, none, some, [], ◌∷◌, ◌++◌, if◌then◌else◌, Text,
  same, same_refl, ℤ, length,
}
use sws.Base.Texts.{ℤ}
use sws.Db.Statements.{set_playlist_current}
use sws.Track.{File, open_track}
use sws.Playlist.{Playlist}
use sws.Player.{
  Player, deref, forward, backward, wrap_end, named, signal, put_current_playlist, play_path, play,
  play_table, assign_playlist, index, track_effects, statements, signalled, next, previous,
  playlist_up, playlist_down,
}
use sws.Player.Sessions.{Sqlite, executed, overwrite}
use sws.Player.Sessions.Position.{IsPlainWorld, executed-append, current-opened, overwrite_twice}
use sws.Control.Session.{Every, Every-elim, row, IsKept, IsSaved, IsKept-quiet, IsSaved-quiet}

module _ {Db : Type 0} (S : Sqlite Db) (d : Db) (world : Text → File) (plain : IsPlainWorld world)
    (before : Text → Option ℤ) where
  overwrite_if :
      (y z : ℤ) (b : Bool) (o : Option ℤ)
      → overwrite y (if b then overwrite z o else o) ≡ overwrite y o
  overwrite_if y z true o = overwrite_twice S z y o
  overwrite_if y z false o = refl

  row-play_path :
      (p : Player) (path m : Text)
      → row S d (play_path world p path) m ≡ (
          if same p.current_playlist.name m
          then overwrite (ℤ.pos (index p.it_track)) (row S d p m)
          else row S d p m)
  unfolding play_path set_playlist_current
  row-play_path p path m =
      let name = p.current_playlist.name in
      let z = ℤ.pos (index p.it_track) in
      let opened = track_effects (open_track world path).1 in
      let pushed = statements (set_playlist_current name z) ++ signal ∷ [] in
      let e = executed S p.effects d in
      ap (λ x. S.current x m)
        (executed-append S p.effects (opened ++ pushed) d ∙ executed-append S opened pushed e)
      ∙ S.update name z (executed S opened e) m
      ∙ ap (λ o. if same name m then overwrite z o else o) (current-opened S world path e m plain)

  IsSaved-play_path :
      (p : Player) (path : Text) → IsKept S d before p → IsSaved S d before (play_path world p path)
  unfolding play_path
  IsSaved-play_path p path k = (
    λ m y.
        ap (overwrite y) (row-play_path p path m)
        ∙ overwrite_if y (ℤ.pos (index p.it_track)) (same p.current_playlist.name m) (row S d p m)
        ∙ k m y,
    row-play_path p path p.current_playlist.name
        ∙ rw (same_refl p.current_playlist.name)
            (k p.current_playlist.name (ℤ.pos (index p.it_track))),
  )

  pub IsSaved-play : (p : Player) → IsKept S d before p → Every (IsSaved S d before) (play world p)
  unfolding play
  IsSaved-play p k =
      Every-elim (IsSaved S d before) (deref p.current_playlist.tracks p.it_track)
        (λ path. if p.is_destroyed then none else some (play_path world p path))
        (λ path. by_life path p.is_destroyed)
    where
      by_life :
          (path : Text) (b : Bool)
          → Every (IsSaved S d before) (if b then none else some (play_path world p path))
      by_life path true = tt
      by_life path false = IsSaved-play_path p path k

  -- `play` after a change that pushes nothing, and the signal behind it.
  IsSaved-signalled :
      (p : Player) → IsKept S d before p → Every (IsSaved S d before) (signalled (play world p))
  IsSaved-signalled p k = by_result (play world p) (IsSaved-play p k)
    where
      by_result :
          (o : Option Player)
          → Every (IsSaved S d before) o
          → Every (IsSaved S d before) (signalled o)
      by_result none h = tt
      by_result (some q) h =
          IsSaved-quiet S d before q (record q { effects = q.effects ++ signal ∷ [] }) (signal ∷ [])
            refl (λ e m. refl) refl refl h

  pub IsSaved-next : (p : Player) → IsKept S d before p → Every (IsSaved S d before) (next world p)
  unfolding next
  IsSaved-next p k =
      let n = length p.current_playlist.tracks in
      Every-elim (IsSaved S d before) (forward n p.it_track)
        (λ c. signalled (play world (record p { it_track = wrap_end n c; is_playing = false })))
        (λ c. IsSaved-signalled (record p { it_track = wrap_end n c; is_playing = false }) k)

  pub IsSaved-previous :
      (p : Player) → IsKept S d before p → Every (IsSaved S d before) (previous world p)
  unfolding previous
  IsSaved-previous p k =
      Every-elim (IsSaved S d before) (backward (length p.current_playlist.tracks) p.it_track)
        (λ c. signalled (play world (record p { it_track = c; is_playing = false })))
        (λ c. IsSaved-signalled (record p { it_track = c; is_playing = false }) k)

  abbrev turned : Player → Playlist → Player
  turned p l = record (assign_playlist p l) {
    is_playing = false;
    effects = (assign_playlist p l).effects ++ put_current_playlist l.name ∷ [];
  }

  IsKept-turned : (p : Player) (l : Playlist) → IsKept S d before p → IsKept S d before (turned p l)
  unfolding assign_playlist
  IsKept-turned p l k =
      IsKept-quiet S d before p (turned p l) (put_current_playlist l.name ∷ []) refl (λ e m. refl) k

  IsSaved-play_table :
      (p : Player) → IsKept S d before p → Every (IsSaved S d before) (play_table world p)
  unfolding play_table
  IsSaved-play_table p k =
      Every-elim (IsSaved S d before) (deref p.playlist_tables p.it)
        (λ name. elim (named p.playlists name) [
          | none ↦ none
          | some l ↦ signalled (play world (turned p l))
        ])
        (λ name.
          Every-elim (IsSaved S d before) (named p.playlists name)
            (λ l. signalled (play world (turned p l)))
            (λ l. IsSaved-signalled (turned p l) (IsKept-turned p l k)))

  pub IsSaved-playlist_up :
      (p : Player) → IsKept S d before p → Every (IsSaved S d before) (playlist_up world p)
  unfolding playlist_up
  IsSaved-playlist_up p k =
      Every-elim (IsSaved S d before) (backward (length p.playlist_tables) p.it)
        (λ c. play_table world (record p { it = c }))
        (λ c. IsSaved-play_table (record p { it = c }) k)

  pub IsSaved-playlist_down :
      (p : Player) → IsKept S d before p → Every (IsSaved S d before) (playlist_down world p)
  unfolding playlist_down
  IsSaved-playlist_down p k =
      let n = length p.playlist_tables in
      Every-elim (IsSaved S d before) (forward n p.it)
        (λ c. play_table world (record p { it = wrap_end n c }))
        (λ c. IsSaved-play_table (record p { it = wrap_end n c }) k)

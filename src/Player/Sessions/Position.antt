-- ===== src/Player/Sessions/Position.antt =====
-- The position that the database has after tracks were played.
use sws.Base.{
  ℕ, zero, suc, ◌+◌, ◌%◌, ◌<◌, ◌≡◌, refl, ap, ◌∙◌, false, Option, none, some, List, [], ◌∷◌, ◌++◌,
  length, get_elem?-some, Text, ℤ, same_refl, arith,
}
use mathlib.Core.List.{append_assoc}
use sws.Base.Texts.{ℤ}
use sws.Db.{Song}
use sws.Db.Literal.{IsPlain, first}
use sws.Db.Statements.{set_playlist_current, insert_path, insert_track}
use sws.Track
use sws.Track.{File, open_track, pushes}
use sws.Player.{
  Player, Effect, push, track_effect, signal, at, next, play_path, deref, forward, wrap_end,
  track_effects, statements, put_current_playlist,
}
use sws.Player.Steps.{
  following, play_lem, next_lem, next_times, next_times-suc, next_times-zero, around,
}
use sws.Player.Sessions.{Sqlite, executed, overwrite}

-- The texts of the catalogue's answers that a statement repeats without doubling their quotes.
abbrev pub IsPlainWorld : (Text → File) → Type 0
IsPlainWorld world =
    (path : Text) → IsPlain (world path).song.spotify_id × IsPlain (world path).song.md5

-- What `next` does beside playing, from a position inside the playlist.
next-effects :
    (world : Text → File) (p : Player) (i : ℕ)
    → p.is_destroyed ≡ false
    → p.it_track ≡ at i
    → i < length p.current_playlist.tracks
    → (q : Player) × (path : Text) × (next world p ≡ some q)
      × (q.current_playlist ≡ p.current_playlist)
      × (q.is_destroyed ≡ false)
      × (q.it_track ≡ at ((i + 1) % length p.current_playlist.tracks))
      × (q.effects
          ≡ p.effects
            ++ (track_effects (open_track world path).1
                ++ (statements (
                      set_playlist_current p.current_playlist.name
                        (ℤ.pos ((i + 1) % length p.current_playlist.tracks)))
                    ++ signal ∷ signal ∷ [])))
unfolding play_path
next-effects world p i live position inside =
    let n = length p.current_playlist.tracks in
    let (w, l) = following n i inside in
    let (path, g) = get_elem?-some p.current_playlist.tracks ((i + 1) % n) l in
    let m : Player = record p { it_track = wrap_end n (at (i + 1)); is_playing = false } in
    let q : Player = play_path world m path in
    (
      record q { effects = q.effects ++ signal ∷ [] },
      path,
      next_lem world p (at (i + 1)) q (ap (forward n) position ∙ ground arith)
          (play_lem world m path live (ap (deref p.current_playlist.tracks) w ∙ g)),
      refl,
      live,
      w,
      rw w (simp append_assoc),
    )

module _ {Db : Type 0} (S : Sqlite Db) where
  pub executed-append :
      (es fs : List Effect) (d : Db) → executed S (es ++ fs) d ≡ executed S fs (executed S es d)
  executed-append [] fs d = refl
  executed-append (push q ∷ es) fs d = executed-append es fs (S.exec q d)
  executed-append (track_effect (Track.push q) ∷ es) fs d = executed-append es fs (S.exec q d)
  executed-append (track_effect (Track.push_duration q) ∷ es) fs d = executed-append es fs d
  executed-append (put_current_playlist q ∷ es) fs d = executed-append es fs d
  executed-append (signal ∷ es) fs d = executed-append es fs d

  current-paths :
      (p : Text) (d : Db) (m : Text)
      → S.current (executed S (track_effects (pushes (insert_path p ++ insert_path p))) d) m
        ≡ S.current d m
  unfolding insert_path
  current-paths p d m =
      S.path_inserted p (S.exec (first (insert_path p)) d) m ∙ S.path_inserted p d m

  current-song :
      (s : Song) (p : Text) (d : Db) (m : Text)
      → IsPlain s.spotify_id
      → IsPlain s.md5
      → S.current
          (executed S (track_effects (pushes (insert_track s) ++ Track.push_duration p ∷ [])) d)
          m
        ≡ S.current d m
  unfolding insert_track
  current-song s p d m h k = S.track_inserted s d m h k

  -- Opening a track leaves the table.
  pub current-opened :
      (world : Text → File) (path : Text) (d : Db) (m : Text)
      → IsPlainWorld world
      → S.current (executed S (track_effects (open_track world path).1) d) m ≡ S.current d m
  unfolding open_track
  current-opened world path d m w = ground (
    arith,
    current-paths path d m,
    current-song (world path).song (world path).song.path d m (w path).0 (w path).1,
  )

  -- After `next` a row of the playlist has the new position.
  pub next-current :
      (world : Text → File) (d : Db) (p : Player) (i : ℕ)
      → IsPlainWorld world
      → p.is_destroyed ≡ false
      → p.it_track ≡ at i
      → i < length p.current_playlist.tracks
      → (q : Player) × (next world p ≡ some q)
        × (q.current_playlist ≡ p.current_playlist)
        × (q.is_destroyed ≡ false)
        × (q.it_track ≡ at ((i + 1) % length p.current_playlist.tracks))
        × (S.current (executed S q.effects d) p.current_playlist.name
            ≡ overwrite
                (ℤ.pos ((i + 1) % length p.current_playlist.tracks))
                (S.current (executed S p.effects d) p.current_playlist.name))
  unfolding set_playlist_current
  next-current world d p i w live e h =
      let (q, path, a, b, v, c, f) = next-effects world p i live e h in
      let name = p.current_playlist.name in
      let z = ℤ.pos ((i + 1) % length p.current_playlist.tracks) in
      let opened = track_effects (open_track world path).1 in
      let d' = executed S p.effects d in
      (
        q,
        a,
        b,
        v,
        c,
        rw
            (
              f,
              executed-append p.effects
                  (opened ++ (statements (set_playlist_current name z) ++ signal ∷ signal ∷ [])) d,
              executed-append opened
                  (statements (set_playlist_current name z) ++ signal ∷ signal ∷ []) d',
            )
            (S.update name z (executed S opened d') name
              ∙ rw (same_refl name) (ap (overwrite z) (current-opened world path d' name w))),
      )

  pub overwrite_twice : (y z : ℤ) (o : Option ℤ) → overwrite z (overwrite y o) ≡ overwrite z o
  overwrite_twice y z none = refl
  overwrite_twice y z (some x) = refl

  -- So it has after several times.
  pub next_times-current :
      (world : Text → File) (d : Db) (k : ℕ) (p : Player) (i : ℕ)
      → IsPlainWorld world
      → p.is_destroyed ≡ false
      → p.it_track ≡ at i
      → i < length p.current_playlist.tracks
      → (q : Player) × (next_times world (suc k) p ≡ some q)
        × (q.current_playlist ≡ p.current_playlist)
        × (S.current (executed S q.effects d) p.current_playlist.name
            ≡ overwrite
                (ℤ.pos ((i + suc k) % length p.current_playlist.tracks))
                (S.current (executed S p.effects d) p.current_playlist.name))
  next_times-current world d zero p i w live e h =
      let (q, a, b, v, c, f) = next-current world d p i w live e h in
      (q, next_times-suc world zero p q a ∙ next_times-zero world q, b, f)
  next_times-current world d (suc k) p i w live e h =
      let n = length p.current_playlist.tracks in
      let (q, a, b, v, c, f) = next-current world d p i w live e h in
      let (r, a', b', f') =
        next_times-current world d k q ((i + 1) % n) w v c (rw b (following n i h).1) in
      let z = ℤ.pos (((i + 1) % n + suc k) % n) in
      (
        r,
        next_times-suc world (suc k) p q a ∙ a',
        b' ∙ b,
        (rw b at f')
            ∙ ap (overwrite z) f
            ∙ overwrite_twice (ℤ.pos ((i + 1) % n)) z _
            ∙ ap
                (λ (t : ℕ).
                  overwrite (ℤ.pos t) (S.current (executed S p.effects d) p.current_playlist.name))
                (around n i (suc k)),
      )

-- ===== src/Control/Navigation/Moves.antt =====
-- The player's place when it plays, or moves on to a neighbour of the track.
use sws.Base.{
  ℕ, ◌+◌, ◌==◌, ◌<◌, ◌≡◌, refl, ap, sym, ◌∙◌, Bool, true, false, not, Option, none, some, List, [],
  ◌∷◌, ◌++◌, Text, length, arith, get_elem?, get_elem?-inside, if◌then◌else◌,
}
use sws.Track.{File}
use sws.Track.Open.{path-open_track}
use sws.Playlist.{Playlist}
use sws.Player
use sws.Player.{
  Player, Cursor, PipelineState, play, play_path, pause, stop, deref, forward, backward, wrap_end,
  signal, signalled,
}
use sws.Player.Steps.{play_lem, following}
use sws.Control.Navigation.{Place, behind, before, play_at, silence, hold, ahead, back}

-- What playing, and moving on to a neighbour, leaves of a player.
abbrev pub rest : Player → List Playlist × List Text × Cursor × Bool
rest p = (p.playlists, p.playlist_tables, p.it, p.bus_watch)

abbrev pub heard_of : Bool → Text → Option Text
heard_of is_destroyed path = if is_destroyed then none else some path

abbrev pub sound : Player → Option Text × PipelineState × Bool
sound p = (heard_of p.is_destroyed p.current_track.path, p.pipeline, p.is_paused)

abbrev pub sound_at : Place → Option Text × PipelineState × Bool
sound_at s = (s.heard, s.state, s.paused)

-- What a place tells of a player.
abbrev pub Seen : Type 0
Seen =
    (List Playlist × List Text × Cursor × Bool)
    × (Option Text × PipelineState × Bool)
    × Playlist
    × Cursor

abbrev pub seen : Player → Seen
seen p = (rest p, sound p, p.current_playlist, p.it_track)

module _ (tables : List Text) (playlists : List Playlist) where
  -- The player stands at the place.
  pub record StandsAt (p : Player) (s : Place) : Type 0 where
    pub kept : rest p ≡ (playlists, tables, Player.at s.table, s.follows)
    pub sounds : sound p ≡ sound_at s
    pub table_inside : s.table < length tables
    pub playlist : p.current_playlist ≡ s.playlist
    pub position : p.it_track ≡ Player.at s.position
    pub inside : s.position < length s.playlist.tracks

  -- The player stands at the place, or neither is defined.
  abbrev pub Refines : Option Player → Option Place → Type 0
  Refines none none = Unit
  Refines (some p) (some s) = StandsAt p s
  Refines none (some s) = ⊥
  Refines (some p) none = ⊥

  pub seen-StandsAt : (p q : Player) (s : Place) → seen q ≡ seen p → StandsAt p s → StandsAt q s
  seen-StandsAt p q s e h = record {
    kept = ap (λ x. x.0) e ∙ h.kept;
    sounds = ap (λ x. x.1) e ∙ h.sounds;
    table_inside = h.table_inside;
    playlist = ap (λ x. x.2) e ∙ h.playlist;
    position = ap (λ x. x.3) e ∙ h.position;
    inside = h.inside;
  }

  pub inside-StandsAt :
      (p : Player) (s : Place) → StandsAt p s → s.position < length p.current_playlist.tracks
  inside-StandsAt p s h = rw h.playlist h.inside

  -- Whether the track lives, as the place tells it.
  pub heard-StandsAt :
      (p : Player) (s : Place)
      → StandsAt p s
      → s.heard ≡ heard_of p.is_destroyed p.current_track.path
  heard-StandsAt p s h = ap (λ x. x.0) (sym h.sounds)

  pub Refines-signalled :
      (o : Option Player) (t : Option Place) → Refines o t → Refines (signalled o) t
  Refines-signalled none none h = h
  Refines-signalled none (some t) h = h
  Refines-signalled (some q) none h = h
  Refines-signalled (some q) (some t) h =
      seen-StandsAt q (record q { effects = q.effects ++ signal ∷ [] }) t refl h

module _ (world : Text → File) (tables : List Text) (playlists : List Playlist) where
  play-missing :
      (p : Player) → deref p.current_playlist.tracks p.it_track ≡ none → play world p ≡ none
  unfolding play
  play-missing p h = rw (play, h)

  play-destroyed :
      (p : Player) (path : Text)
      → p.is_destroyed ≡ true
      → deref p.current_playlist.tracks p.it_track ≡ some path
      → play world p ≡ none
  unfolding play
  play-destroyed p path d h = rw (play, h) (rw d refl)

  -- Playing where the iterator points at a position, which may lie outside the playlist.
  pub Refines-play_at :
      (p : Player) (s : Place) (j : ℕ)
      → rest p ≡ (playlists, tables, Player.at s.table, s.follows)
      → s.heard ≡ heard_of p.is_destroyed p.current_track.path
      → s.table < length tables
      → p.current_playlist ≡ s.playlist
      → p.it_track ≡ Player.at j
      → Refines tables playlists (play world p) (play_at s j)
  unfolding play_path
  Refines-play_at p s j kept heard inside c e =
      by_track (get_elem? s.playlist.tracks j) refl p.is_destroyed refl
    where
      here : deref p.current_playlist.tracks p.it_track ≡ get_elem? s.playlist.tracks j
      here = ap (deref p.current_playlist.tracks) e ∙ ap (λ (l : Playlist). get_elem? l.tracks j) c

      by_track :
          (o : Option Text)
          → get_elem? s.playlist.tracks j ≡ o
          → (b : Bool) → p.is_destroyed ≡ b
          → Refines tables playlists (play world p) (play_at s j)
      by_track none g true d = rw (play-missing p (here ∙ g), heard, d) tt
      by_track none g false d = rw (play-missing p (here ∙ g), heard, d, g) tt
      by_track (some path) g true d = rw (play-destroyed p path d (here ∙ g), heard, d) tt
      by_track (some path) g false d =
          rw (play_lem world p path d (here ∙ g), heard, d, g)
            (record {
              kept = kept;
              sounds = ap (λ t. (some t, Player.playing, false)) (path-open_track world path);
              table_inside = inside;
              playlist = c;
              position = e;
              inside = get_elem?-inside s.playlist.tracks j path g;
            })

  next_turned :
      (p : Player) (c : Cursor)
      → forward (length p.current_playlist.tracks) p.it_track ≡ some c
      → Player.next world p
        ≡ signalled (
            play world (record p {
              it_track = wrap_end (length p.current_playlist.tracks) c;
              is_playing = false;
            }))
  unfolding Player.next
  next_turned p c h = rw (Player.next, h) refl

  previous_turned :
      (p : Player) (c : Cursor)
      → backward (length p.current_playlist.tracks) p.it_track ≡ some c
      → Player.previous world p
        ≡ signalled (play world (record p { it_track = c; is_playing = false }))
  unfolding Player.previous
  previous_turned p c h = rw (Player.previous, h) refl

  module _ (p : Player) (s : Place) (h : StandsAt tables playlists p s) where
    pub Refines-play : Refines tables playlists (play world p) (play_at s s.position)
    Refines-play =
        Refines-play_at p s s.position h.kept (heard-StandsAt tables playlists p s h) h.table_inside
          h.playlist h.position

    abbrev moved : Cursor → Player
    moved c = record p { it_track = c; is_playing = false }

    same_size : length p.current_playlist.tracks ≡ length s.playlist.tracks
    same_size = ap (λ (l : Playlist). length l.tracks) h.playlist

    pub Refines-next : Refines tables playlists (Player.next world p) (ahead s)
    Refines-next =
        let f : forward (length p.current_playlist.tracks) p.it_track
            ≡ some (Player.at (s.position + 1)) =
          ap (forward (length p.current_playlist.tracks)) h.position
          ∙ ground (arith, inside-StandsAt tables playlists p s h) in
        let w = (following (length s.playlist.tracks) s.position h.inside).0 in
        rw (next_turned p (Player.at (s.position + 1)) f) (
          Refines-signalled tables playlists _ (ahead s) (
            Refines-play_at (moved _) s (behind (length s.playlist.tracks) s.position) h.kept
              (heard-StandsAt tables playlists p s h) h.table_inside h.playlist
              (ap (λ k. wrap_end k (Player.at (s.position + 1))) same_size ∙ w)))

    pub Refines-previous : Refines tables playlists (Player.previous world p) (back s)
    Refines-previous =
        let f : backward (length p.current_playlist.tracks) p.it_track
            ≡ some (Player.at (before (length s.playlist.tracks) s.position)) =
          ap (backward (length p.current_playlist.tracks)) h.position
          ∙ ap (λ k. backward k (Player.at s.position)) same_size
          ∙ ground (arith, h.inside) in
        rw (previous_turned p _ f) (
          Refines-signalled tables playlists _ (back s) (
            Refines-play_at (moved _) s (before (length s.playlist.tracks) s.position) h.kept
              (heard-StandsAt tables playlists p s h) h.table_inside h.playlist refl))

    pub Refines-stop : Refines tables playlists (stop p) (silence s)
    unfolding stop
    Refines-stop = by_life p.is_destroyed refl
      where
        by_life : (b : Bool) → p.is_destroyed ≡ b → Refines tables playlists (stop p) (silence s)
        by_life true d = rw (heard-StandsAt tables playlists p s h, stop, d) tt
        by_life false d = by_path (length p.current_track.path == 0) refl
          where
            by_path :
                (e : Bool)
                → (length p.current_track.path == 0) ≡ e
                → Refines tables playlists (stop p) (silence s)
            by_path e g =
                rw (heard-StandsAt tables playlists p s h, stop, d)
                  (record {
                    kept = h.kept;
                    sounds = ground (arith, h.sounds, g);
                    table_inside = h.table_inside;
                    playlist = h.playlist;
                    position = h.position;
                    inside = h.inside;
                  })

    pub StandsAt-pause : StandsAt tables playlists (pause p) (hold s)
    unfolding pause
    StandsAt-pause = record {
      kept = h.kept;
      sounds = ap (λ x. (x.0, if x.2 then Player.playing else Player.paused, not x.2)) h.sounds;
      table_inside = h.table_inside;
      playlist = h.playlist;
      position = h.position;
      inside = h.inside;
    }

-- ===== src/Control/Navigation/Tables.antt =====
-- The player's place when it moves on to another playlist.
use sws.Base.{
  ℕ, ◌+◌, ◌<◌, ◌≤◌, ◌≡◌, refl, ap, ◌∙◌, Option, none, some, List, [], ◌∷◌, ◌++◌, Text, length,
  arith, get_elem?, get_elem?-some, get_elem?-inside, ◌>>=◌, dec_lt, false,
}
use sws.Track.{File}
use sws.Playlist.{Playlist}
use sws.Player
use sws.Player.{
  Player, Cursor, dangling, play, play_table, playlist_up, playlist_down, named, assign_playlist,
  deref, forward, backward, reassigned, signalled, put_current_playlist,
}
use sws.Player.Steps.{following}
use sws.Player.Lists.{play_table-dangling}
use sws.Control.Navigation
use sws.Control.Navigation.{Place, behind, before, play_at, switch, up, down}
use sws.Control.Navigation.Moves.{
  StandsAt, Refines, Refines-signalled, Refines-play_at, heard-StandsAt, inside-StandsAt,
}

-- Nothing is played outside a playlist.
play_at-outside : (s : Place) (j : ℕ) → get_elem? s.playlist.tracks j ≡ none → play_at s j ≡ none
play_at-outside s j h = by_life s.heard
  where
    by_life : (o : Option Text) → Navigation.play_track s j o (get_elem? s.playlist.tracks j) ≡ none
    by_life none = refl
    by_life (some old) = rw h refl

get_elem?-outside : {A : Type 0} (xs : List A) (i : ℕ) → length xs ≤ i → get_elem? xs i ≡ none
get_elem?-outside {A = A} xs i h = by_result (get_elem? xs i) refl
  where
    by_result : (o : Option A) → get_elem? xs i ≡ o → get_elem? xs i ≡ none
    by_result none e = e
    by_result (some x) e = absurd (omega (arith, get_elem?-inside xs i x e))

module _ (world : Text → File) (tables : List Text) (playlists : List Playlist) where
  play_table-none :
      (p : Player) (name : Text)
      → deref p.playlist_tables p.it ≡ some name
      → named p.playlists name ≡ none
      → play_table world p ≡ none
  unfolding play_table
  play_table-none p name d e = rw (play_table, d) (rw e refl)

  abbrev assigned : Player → Playlist → Player
  assigned p l = record (assign_playlist p l) {
    is_playing = false;
    effects = (assign_playlist p l).effects ++ put_current_playlist l.name ∷ [];
  }

  play_table-assigned :
      (p : Player) (name : Text) (l : Playlist)
      → deref p.playlist_tables p.it ≡ some name
      → named p.playlists name ≡ some l
      → play_table world p ≡ signalled (play world (assigned p l))
  unfolding play_table
  play_table-assigned p name l d e = rw (play_table, d) (rw e refl)

  module _ (p : Player) (s : Place) (h : StandsAt tables playlists p s) (t : ℕ)
      (k : t < length tables) where
    abbrev turned : Player
    turned = record p { it = Player.at t }

    table_of :
        (name : Text)
        → get_elem? tables t ≡ some name
        → deref turned.playlist_tables turned.it ≡ some name
    table_of name e = rw (ap (λ x. x.1) h.kept) e

    reached :
        (name : Text) (l : Playlist)
        → get_elem? tables t ≡ some name
        → named playlists name ≡ some l
        → Refines tables playlists
            (play_table world turned)
            (play_at (record s { table = t; playlist = l }) s.position)
    unfolding assign_playlist
    reached name l e f = elim (dec_lt s.position (length l.tracks)) [
      | yes i ↦
          let at_track : (assigned turned l).it_track ≡ Player.at s.position =
            ap (reassigned (length p.current_playlist.tracks) (length l.tracks)) h.position
            ∙ ground (arith, inside-StandsAt tables playlists p s h, i) in
          rw (play_table-assigned turned name l (table_of name e) found) (
            Refines-signalled tables playlists _ (play_at placed s.position) (
              Refines-play_at world tables playlists (assigned turned l) placed s.position
                (ap (λ x. (x.0, x.1, Player.at t, x.3)) h.kept)
                (heard-StandsAt tables playlists p s h) k refl at_track))
      | no i ↦
          let d =
            play_table-dangling world turned s.position name l h.position
              (inside-StandsAt tables playlists p s h) (table_of name e) found (omega arith) in
          rw
            (
              d,
              play_at-outside placed s.position
                  (get_elem?-outside l.tracks s.position (omega arith)),
            )
            tt
    ]
      where
        placed : Place
        placed = record s { table = t; playlist = l }

        found : named turned.playlists name ≡ some l
        found = rw (ap (λ x. x.0) h.kept) f

    pub Refines-switch :
        Refines tables playlists (play_table world turned) (switch tables playlists s t)
    Refines-switch =
        let (name, e) = get_elem?-some tables t k in
        rw e (by_name name e (named playlists name) refl)
      where
        by_name :
            (name : Text)
            → get_elem? tables t ≡ some name
            → (o : Option Playlist) → named playlists name ≡ o
            → Refines tables playlists (play_table world turned) (
                named playlists name
                >>= (λ l. play_at (record s { table = t; playlist = l }) s.position))
        by_name name e none f =
            rw (f, play_table-none turned name (table_of name e) (rw (ap (λ x. x.0) h.kept) f)) _
        by_name name e (some l) f = rw f (reached name l e f)

  module _ (p : Player) (s : Place) (h : StandsAt tables playlists p s) where
    same_tables : p.playlist_tables ≡ tables
    same_tables = ap (λ x. x.1) h.kept

    playlist_down-turned :
        playlist_down world p
        ≡ play_table world (record p { it = Player.at (behind (length tables) s.table) })
    unfolding playlist_down
    playlist_down-turned =
        let f : forward (length p.playlist_tables) p.it ≡ some (Player.at (s.table + 1)) =
          ap (forward (length p.playlist_tables)) (ap (λ x. x.2) h.kept)
          ∙ ap (λ (ts : List Text). forward (length ts) (Player.at s.table)) same_tables
          ∙ ground (arith, h.table_inside) in
        rw (playlist_down, f)
          (ap
              (λ (ts : List Text).
                play_table world
                  (record p { it = Player.wrap_end (length ts) (Player.at (s.table + 1)) }))
              same_tables
            ∙ ap (λ c. play_table world (record p { it = c }))
                (following (length tables) s.table h.table_inside).0)

    playlist_up-turned :
        playlist_up world p
        ≡ play_table world (record p { it = Player.at (before (length tables) s.table) })
    unfolding playlist_up
    playlist_up-turned =
        let f : backward (length p.playlist_tables) p.it
            ≡ some (Player.at (before (length tables) s.table)) =
          ap (backward (length p.playlist_tables)) (ap (λ x. x.2) h.kept)
          ∙ ap (λ (ts : List Text). backward (length ts) (Player.at s.table)) same_tables
          ∙ ground (arith, h.table_inside) in
        rw (playlist_up, f) refl

    pub Refines-playlist_down :
        Refines tables playlists (playlist_down world p) (down tables playlists s)
    Refines-playlist_down = rw playlist_down-turned (
        Refines-switch p s h (behind (length tables) s.table)
          (following (length tables) s.table h.table_inside).1)

    pub Refines-playlist_up : Refines tables playlists (playlist_up world p) (up tables playlists s)
    Refines-playlist_up =
        rw playlist_up-turned
          (Refines-switch p s h (before (length tables) s.table) (ground (arith, h.table_inside)))

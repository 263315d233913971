-- ===== src/Player/Lists.antt =====
-- Moving on to another playlist.
use sws.Base.{
  ℕ, ◌≤◌, ◌<◌, ◌≡◌, refl, ap, ◌∙◌, false, none, some, [], ◌∷◌, ◌++◌, length, arith, Text,
}
use sws.Track.{File}
use sws.Playlist.{Playlist}
use sws.Player.{
  Player, at, dangling, play, play_table, named, assign_playlist, deref, reassigned, signalled,
  put_current_playlist, signal,
}
use sws.Player.Steps.{PlaysAt, play-PlaysAt, play-none, signal-PlaysAt}

module _ (world : Text → File) (p : Player) (i : ℕ) (name : Text) (l : Playlist)
    (at_track : p.it_track ≡ at i) (inside : i < length p.current_playlist.tracks)
    (at_table : deref p.playlist_tables p.it ≡ some name)
    (found : named p.playlists name ≡ some l) where
  abbrev pub moved : Player
  moved = record (assign_playlist p l) {
    is_playing = false;
    effects = (assign_playlist p l).effects ++ put_current_playlist l.name ∷ [];
  }

  pub play_table_lem : play_table world p ≡ signalled (play world moved)
  unfolding play_table
  play_table_lem = rw (play_table, at_table) (rw found refl)

  -- Moving to another playlist does not go to its beginning: the player goes on at the position that
  -- it had in the old one, if the new one is long enough.
  pub play_table-position :
      p.is_destroyed ≡ false
      → i < length l.tracks
      → (q : Player) × (play_table world p ≡ some q) × (q.current_playlist ≡ l) × PlaysAt q i
  unfolding assign_playlist
  play_table-position live h =
      let (q, a, b, c) = play-PlaysAt world moved i live kept h in
      (
        record q { effects = q.effects ++ signal ∷ [] },
        play_table_lem ∙ rw a,
        b,
        signal-PlaysAt world q i c _,
      )
    where
      kept : moved.it_track ≡ at i
      kept =
          ap (reassigned (length p.current_playlist.tracks) (length l.tracks)) at_track
          ∙ ground arith

  -- Where the new playlist is not longer than the position, the iterator is left at an erased element,
  -- and playing reads it.
  pub play_table-dangling : length l.tracks ≤ i → play_table world p ≡ none
  unfolding assign_playlist
  play_table-dangling h = play_table_lem ∙ rw (play-none world moved erased)
    where
      erased : deref moved.current_playlist.tracks moved.it_track ≡ none
      erased =
          let e : moved.it_track ≡ dangling =
            ap (reassigned (length p.current_playlist.tracks) (length l.tracks)) at_track
            ∙ ground arith in
          ap (deref moved.current_playlist.tracks) e

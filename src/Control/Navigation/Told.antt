-- ===== src/Control/Navigation/Told.antt =====
-- What a client that asks is told can always be told.
use sws.Base.{
  ℕ, ◌+◌, ◌-◌, ◌<◌, ◌≡◌, refl, ap, ◌∙◌, ◌==◌, if◌then◌else◌, some, List, [], ◌∷◌, ◌++◌, Text,
  length, arith, zero, suc, get_elem?, get_elem?-some, same_refl, true, false, none, ◌⊎◌, inl, inr,
  Bool-cases,
}
use sws.Track.{File, open_track}
use sws.Playlist.{Playlist, index_loop, index_of}
use sws.Player.Json.{Json, object, player_fields, player_json}
use sws.Player.{Player, track_effects, deref, peak_next, peak_previous}
use sws.Control.Navigation.{Place}
use sws.Control.Navigation.Moves.{StandsAt, inside-StandsAt, seen-StandsAt}

-- A track of the list has an index in it.
index_loop-inside :
    (path : Text) (ts : List Text) (i k : ℕ)
    → get_elem? ts k ≡ some path
    → index_loop path ts i < i + length ts
unfolding index_loop
index_loop-inside path [] i k h = absurd (ground arith)
index_loop-inside path (t ∷ ts) i zero h =
    let e : path ≡ t = ground arith in rw (e, same_refl t) (omega arith)
index_loop-inside path (t ∷ ts) i (suc k) h = ground (arith, index_loop-inside path ts (i + 1) k h)

module _ (world : Text → File) where
  peak_next-some :
      (p : Player) (path a : Text)
      → deref p.current_playlist.tracks p.it_track ≡ some path
      → get_elem? p.current_playlist.tracks (
          if index_of p.current_playlist path + 1 == length p.current_playlist.tracks
          then 0
          else index_of p.current_playlist path + 1)
        ≡ some a
      → peak_next p ≡ some a
  unfolding peak_next
  peak_next-some p path a d e = rw (peak_next, d) e

  peak_previous-some :
      (p : Player) (path b : Text)
      → deref p.current_playlist.tracks p.it_track ≡ some path
      → get_elem? p.current_playlist.tracks (
          (if index_of p.current_playlist path == 0
            then length p.current_playlist.tracks
            else index_of p.current_playlist path)
          - 1)
        ≡ some b
      → peak_previous p ≡ some b
  unfolding peak_previous
  peak_previous-some p path b d e = rw (peak_previous, d) e

  abbrev told : Player → (a b : Text) → Json × Player
  told p a b = (
    object (player_fields p (open_track world a).0 (open_track world b).0),
    record p {
      effects =
          p.effects
          ++ (track_effects (open_track world a).1 ++ track_effects (open_track world b).1);
    },
  )

  player_json-told :
      (p : Player) (a b : Text)
      → p.is_destroyed ≡ false
      → peak_next p ≡ some a
      → peak_previous p ≡ some b
      → player_json world p ≡ some (told p a b)
  unfolding player_json
  player_json-told p a b d e f = rw (player_json, e, f) (rw d refl)

  player_json-destroyed :
      (p : Player) (a b : Text)
      → p.is_destroyed ≡ true
      → peak_next p ≡ some a
      → peak_previous p ≡ some b
      → player_json world p ≡ none
  unfolding player_json
  player_json-destroyed p a b d e f = rw (player_json, e, f) (rw d refl)

  index_of-inside :
      (p : Player) (path : Text) (i : ℕ)
      → get_elem? p.current_playlist.tracks i ≡ some path
      → index_of p.current_playlist path < length p.current_playlist.tracks
  unfolding index_of
  index_of-inside p path i e = omega (arith, index_loop-inside path p.current_playlist.tracks 0 i e)

  -- The two neighbours of the current track can be told, and it itself where it was not destroyed.
  pub player_json-StandsAt :
      (tables : List Text) (playlists : List Playlist) (p : Player) (s : Place)
      → StandsAt tables playlists p s
      → ((p.is_destroyed ≡ true) × (player_json world p ≡ none))
        ⊎ ((p.is_destroyed ≡ false)
            × (j : Json) × (q : Player) × (player_json world p ≡ some (j, q))
            × StandsAt tables playlists q s)
  player_json-StandsAt tables playlists p s h =
      let ts = p.current_playlist.tracks in
      let n = length ts in
      let (path, g) = get_elem?-some ts s.position (inside-StandsAt tables playlists p s h) in
      let d : deref ts p.it_track ≡ some path = ap (deref ts) h.position ∙ g in
      let i = index_of p.current_playlist path in
      let k = index_of-inside p path s.position g in
      let (a, ea) = get_elem?-some ts (if i + 1 == n then 0 else i + 1) (ground (arith, k)) in
      let (b, eb) = get_elem?-some ts ((if i == 0 then n else i) - 1) (ground (arith, k)) in
      let next = peak_next-some p path a d ea in
      let previous = peak_previous-some p path b d eb in
      elim (Bool-cases p.is_destroyed) [
        | inl l ↦ inl (l, player_json-destroyed p a b l next previous)
        | inr l ↦ inr (
          l,
          (told p a b).0,
          (told p a b).1,
          player_json-told p a b l next previous,
          seen-StandsAt tables playlists p (told p a b).1 s refl h,
        )
      ]

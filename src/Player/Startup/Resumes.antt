-- ===== src/Player/Startup/Resumes.antt =====
-- The player starts where the database says that it was.
use sws.Base.{
  ℕ, ◌<◌, ◌≤◌, ◌≡◌, ◌⊎◌, inl, inr, refl, ◌∙◌, Bool, true, false, some, List, [], ◌∷◌, length, arith,
  Text, dec_lt,
}
use sws.Base.Texts.{ℤ}
use sws.Playlist.{Playlist}
use sws.Track.{File}
use sws.Player.{Player, at, null, named}
use sws.Player.Steps.{PlaysAt, play-PlaysAt}
use sws.Player.Startup.{Outside, begin_at, advance, player, start}

-- Whether one of the answers lists a table.
abbrev pub has_answer : List (List Text) → Bool
has_answer [] = false
has_answer ([] ∷ answers) = has_answer answers
has_answer ((t ∷ ts) ∷ answers) = true

-- The saved position is not one of a list of this size.
abbrev pub IsOutOfRange : ℕ → ℤ → Type 0
IsOutOfRange size (ℤ.pos n) = size ≤ n
IsOutOfRange size (ℤ.negsuc n) = Unit

advance-position :
    (size : ℕ) (z : ℤ)
    → 0 < size
    → (i : ℕ) × (advance size z ≡ at i)
      × (i < size)
      × ((z ≡ ℤ.pos i) ⊎ ((i ≡ 0) × IsOutOfRange size z))
advance-position size (ℤ.pos n) h = elim (dec_lt n size) [
  | yes l ↦ (n, ground arith, l, inl refl)
  | no l ↦ (0, ground arith, h, inr (refl, omega arith))
]
advance-position size (ℤ.negsuc n) h = (0, refl, h, inr (refl, tt))

-- Where the current playlist has a track, `start` plays the one at the saved position, or the first one
-- where that is none of the playlist.
abbrev pub Resumes : (Text → File) → Player → ℤ → Type 0
Resumes world p saved =
    (p.current_playlist.tracks ≡ [])
    ⊎ ((q : Player) × (i : ℕ) × (start world p ≡ some q)
        × PlaysAt q i
        × ((saved ≡ ℤ.pos i) ⊎ ((i ≡ 0) × IsOutOfRange (length p.current_playlist.tracks) saved)))

start-Resumes :
    (world : Text → File) (p : Player) (saved : ℤ)
    → p.is_destroyed ≡ false
    → p.it_track ≡ advance (length p.current_playlist.tracks) saved
    → Resumes world p saved
unfolding start
start-Resumes world p saved live e = by_tracks p.current_playlist.tracks refl
  where
    by_tracks : (ts : List Text) → p.current_playlist.tracks ≡ ts → Resumes world p saved
    by_tracks [] h = inl h
    by_tracks (t ∷ ts) h =
        let (i, a, l, c) =
          advance-position (length p.current_playlist.tracks) saved (rw h (omega arith)) in
        let (q, b, m, d) = play-PlaysAt world (record p { is_playing = false }) i live (e ∙ a) l in
        inr (q, i, b, d, c)

-- What the constructor leaves.
pub player-seen :
    (o : Outside) (p : Player)
    → player o ≡ some p
    → (p.it ≡ at 0)
      × (p.bus_watch ≡ true)
      × (p.it_track
          ≡ advance (length p.current_playlist.tracks) (o.current p.current_playlist.name))
      × (p.is_destroyed ≡ false)
      × (p.current_track.path ≡ [])
      × (p.pipeline ≡ null)
      × (p.is_paused ≡ false)
unfolding player begin_at sws.Track.blank
player-seen o p h = ground (arith, h)

-- The current playlist is the configured one: the first of its name, or the first of all where none has
-- it, without its source.
abbrev pub IsConfigured : Outside → Player → Type 0
IsConfigured o p = named p.playlists o.current_playlist ≡ some p.current_playlist

-- A player that was made starts at the saved position.
pub player-Resumes :
    (world : Text → File) (o : Outside) (p : Player)
    → player o ≡ some p
    → Resumes world p (o.current p.current_playlist.name)
player-Resumes world o p h =
    start-Resumes world p (o.current p.current_playlist.name) (alive o p h) (position o p h)
  where
    alive : (o : Outside) (p : Player) → player o ≡ some p → p.is_destroyed ≡ false
    alive o p h = (player-seen o p h).3

    position :
        (o : Outside) (p : Player)
        → player o ≡ some p
        → p.it_track
          ≡ advance (length p.current_playlist.tracks) (o.current p.current_playlist.name)
    position o p h = (player-seen o p h).2

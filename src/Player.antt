-- ===== src/Player.antt =====
-- src/player.cpp and include/player.h: the player's state, and the operations that the joystick, the
-- clients and the end of a track call. `none` stands for undefined behaviour: an iterator that
-- points to no element is read or moved on, or a destroyed track is used.
pub mod Steps
pub mod Peek
pub mod Lists
pub mod Startup
pub mod Watcher
pub mod Sessions
pub mod Json
pub mod Reports
use sws.Base.{
  ℕ, ◌+◌, ◌-◌, Bool, true, false, not, Option, none, some, List, [], ◌∷◌, ◌++◌, if◌then◌else◌, ◌==◌,
  ltb, length, get_elem?, Text, same, codes, ℤ,
}
use sws.Base.Texts.{ℤ}
use sws.Db.Statements.{set_playlist_current}
use sws.Track
use sws.Track.{Track, File, open_track, emptied}
use sws.Playlist.{Playlist, index_of, copied}
use mathlib.Core.Option

-- A `list<string>::iterator` of a given list: the position, whose end is the length, or an element
-- that was erased.
pub data Cursor : Type 0 where
  at : ℕ → Cursor
  dangling : Cursor

pub data PipelineState : Type 0 where
  null paused playing : PipelineState

-- What the player does beside changing its state.
pub data Effect : Type 0 where
  track_effect : Track.Effect → Effect
  push : Text → Effect
  put_current_playlist : Text → Effect
  signal : Effect

pub record Player : Type 0 where
  pub playlists : List Playlist
  pub playlist_tables : List Text
  pub it : Cursor
  pub current_playlist : Playlist
  pub it_track : Cursor
  pub current_track : Track
  -- whether `~track()` has ended the life of `current_track`, and freed its texts
  pub is_destroyed : Bool
  pub is_playing : Bool
  pub is_paused : Bool
  pub pipeline : PipelineState
  pub uri : Text
  -- whether `on_bus_message` is still called
  pub bus_watch : Bool
  pub effects : List Effect

abbrev pub deref : List Text → Cursor → Option Text
deref l (at i) = get_elem? l i
deref l dangling = none

-- `++it` of a list of this length
abbrev pub forward : ℕ → Cursor → Option Cursor
forward n (at i) = if ltb i n then some (at (i + 1)) else none
forward n dangling = none

-- `if (it == end()) it = begin();`
abbrev pub wrap_end : ℕ → Cursor → Cursor
wrap_end n (at i) = if i == n then at 0 else at i
wrap_end n dangling = dangling

-- `if (it == begin()) it = end(); --it;`. The two are equal where the list is empty, and nothing
-- stands in front of them.
abbrev pub backward : ℕ → Cursor → Option Cursor
backward n (at i) = if n == 0 then none else if i == 0 then some (at (n - 1)) else some (at (i - 1))
backward n dangling = none

-- What an iterator of a list of length `n` is after the assignment of a list of length `m`: libstdc++
-- writes over the elements that there are, and erases or adds the others behind them.
abbrev pub reassigned : ℕ → ℕ → Cursor → Cursor
reassigned n m (at i) = if i == n then at m else if ltb i m then at i else dangling
reassigned n m dangling = dangling

abbrev pub track_effects : List Track.Effect → List Effect
track_effects [] = []
track_effects (e ∷ es) = track_effect e ∷ track_effects es

abbrev pub statements : List Text → List Effect
statements [] = []
statements (q ∷ qs) = push q ∷ statements qs

abbrev pub index : Cursor → ℕ
index (at i) = i
index dangling = 0

-- `current_playlist = l;`
unfoldable pub assign_playlist : Player → Playlist → Player
assign_playlist p l = record p {
  current_playlist = l;
  it_track = reassigned (length p.current_playlist.tracks) (length l.tracks) p.it_track;
}

-- `named`, over the playlists not yet passed: the first of all where none has the name.
unfoldable pub find_named : Text → List Playlist → Option Playlist
find_named s [] = none
find_named s (l ∷ ls) = let rest = find_named s ls in if same s l.name then some l else rest

unfoldable pub named : List Playlist → Text → Option Playlist
unfolding copied
named ls s = elim (find_named s ls) [
  | some l ↦ some (copied l)
  | none ↦ Option.map copied (get_elem? ls 0)
]

-- The loop of `set_current_playlist`: every playlist of the name is assigned.
unfoldable pub assign_named : Text → List Playlist → Player → Player
unfolding copied
assign_named name [] p = p
assign_named name (l ∷ ls) p =
    assign_named name ls (if same l.name name then assign_playlist p (copied l) else p)

unfoldable pub pause : Player → Player
pause p = record p {
  pipeline = if p.is_paused then playing else paused;
  is_paused = not p.is_paused;
  effects = p.effects ++ signal ∷ [];
}

-- The destructor's body empties the members of the track, and its texts are freed. It is called on the
-- member itself, whose life has then ended: playing, stopping again and telling of the current track
-- use what was freed, and are undefined.
unfoldable pub stop : Player → Option Player
unfolding emptied
stop p =
    let empty = length p.current_track.path == 0 in
    if p.is_destroyed
    then none
    else some (record p {
      pipeline = null;
      current_track = if empty then p.current_track else emptied p.current_track;
      is_destroyed = not empty;
      is_playing = false;
      effects = p.effects ++ signal ∷ [];
    })

-- `peak_next` and `peak_previous`: the path of the track that they make.
unfoldable pub peak_next : Player → Option Text
peak_next p = elim (deref p.current_playlist.tracks p.it_track) [
  | none ↦ none
  | some path ↦
      let i = index_of p.current_playlist path + 1 in
      get_elem? p.current_playlist.tracks (if i == length p.current_playlist.tracks then 0 else i)
]

unfoldable pub peak_previous : Player → Option Text
peak_previous p = elim (deref p.current_playlist.tracks p.it_track) [
  | none ↦ none
  | some path ↦
      let i = index_of p.current_playlist path in
      get_elem? p.current_playlist.tracks
        ((if i == 0 then length p.current_playlist.tracks else i) - 1)
]

abbrev pub signalled : Option Player → Option Player
signalled none = none
signalled (some p) = some (record p { effects = p.effects ++ signal ∷ [] })

module _ (world : Text → File) where
  -- The rest of `play`, at the path that `it_track` points to.
  unfoldable pub play_path : Player → Text → Player
  play_path p path =
      let opened = open_track world path in
      record p {
        current_track = opened.0;
        uri = codes "file://" ++ opened.0.path;
        pipeline = playing;
        is_paused = false;
        is_playing = true;
        effects =
            p.effects
            ++ (track_effects opened.1
                ++ (statements
                      (set_playlist_current p.current_playlist.name (ℤ.pos (index p.it_track)))
                    ++ signal ∷ []));
      }

  -- The new track is assigned to the old one.
  unfoldable pub play : Player → Option Player
  play p = elim (deref p.current_playlist.tracks p.it_track) [
    | none ↦ none
    | some path ↦ if p.is_destroyed then none else some (play_path p path)
  ]

  unfoldable pub next : Player → Option Player
  next p =
      let n = length p.current_playlist.tracks in
      elim (forward n p.it_track) [
        | none ↦ none
        | some c ↦ signalled (play (record p { it_track = wrap_end n c; is_playing = false }))
      ]

  unfoldable pub previous : Player → Option Player
  previous p = elim (backward (length p.current_playlist.tracks) p.it_track) [
    | none ↦ none
    | some c ↦ signalled (play (record p { it_track = c; is_playing = false }))
  ]

  -- What `playlist_up` and `playlist_down` do once `it` has moved.
  unfoldable pub play_table : Player → Option Player
  play_table p = elim (deref p.playlist_tables p.it) [
    | none ↦ none
    | some name ↦ elim (named p.playlists name) [
      | none ↦ none
      | some l ↦
          let q = assign_playlist p l in
          signalled (
            play (record q {
              is_playing = false;
              effects = q.effects ++ put_current_playlist l.name ∷ [];
            }))
    ]
  ]

  unfoldable pub playlist_up : Player → Option Player
  playlist_up p = elim (backward (length p.playlist_tables) p.it) [
    | none ↦ none
    | some c ↦ play_table (record p { it = c })
  ]

  unfoldable pub playlist_down : Player → Option Player
  playlist_down p =
      let n = length p.playlist_tables in
      elim (forward n p.it) [ none ↦ none | some c ↦ play_table (record p { it = wrap_end n c }) ]

  unfoldable pub set_current_playlist : Player → Text → Option Player
  set_current_playlist p name =
      play (record (assign_named name p.playlists p) { is_playing = false })

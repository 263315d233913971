-- ===== src/Player/Steps.antt =====
-- `next`, `previous` and `play` go through the current playlist.
use sws.Base.{
  ℕ, zero, suc, ◌+◌, ◌-◌, ◌%◌, ◌<◌, ◌≡◌, refl, ap, sym, ◌∙◌, true, false, Option, none, some, List,
  [], ◌∷◌, ◌++◌, length, get_elem?, get_elem?-some, dec_lt, arith, Text, codes,
}
use native.Mathlib.Nat.{mod-eq_of_lt, mod_self, mod-add-mod, add-zero}
use sws.Track.{File}
use sws.Track.Open.{path-open_track}
use sws.Player.{
  Player, Cursor, at, playing, play, play_path, next, previous, forward, backward, wrap_end, deref,
  PipelineState, signalled,
}

-- The player plays the track at position `i` of its current playlist.
pub record PlaysAt (p : Player) (i : ℕ) : Type 0 where
  pub position : p.it_track ≡ at i
  pub inside : i < length p.current_playlist.tracks
  pub path : Text
  pub track : get_elem? p.current_playlist.tracks i ≡ some path
  pub uri : p.uri ≡ codes "file://" ++ path
  pub opened : p.current_track.path ≡ path
  pub pipeline : p.pipeline ≡ playing
  pub started : p.is_playing ≡ true
  pub resumed : p.is_paused ≡ false
  pub alive : p.is_destroyed ≡ false

-- The position after one that is inside.
pub following : (n i : ℕ) → i < n → (wrap_end n (at (i + 1)) ≡ at ((i + 1) % n)) × ((i + 1) % n < n)
following n i h = elim (dec_lt (i + 1) n) [
  | yes p ↦ (
    ground (arith, mod-eq_of_lt {n = i + 1} {m = n} p),
    omega (arith, mod-eq_of_lt {n = i + 1} {m = n} p),
  )
  | no p ↦
      let e : i + 1 ≡ n = omega arith in
      let z : (i + 1) % n ≡ 0 = rw e (mod_self n) in (ground (arith, z), omega (arith, z))
]

-- The position before one that is inside.
pub preceding :
    (n i : ℕ) → i < n → (j : ℕ) × (backward n (at i) ≡ some (at j)) × (j < n) × ((j + 1) % n ≡ i)
preceding n zero h =
    let e : n - 1 + 1 ≡ n = omega arith in (n - 1, ground arith, omega arith, rw e (mod_self n))
preceding n (suc i) h =
    let e : i + 1 ≡ suc i = omega arith in
    (i, ground arith, omega arith, rw e (mod-eq_of_lt {n = suc i} {m = n} h))

pub around : (n i k : ℕ) → ((i + 1) % n + k) % n ≡ (i + suc k) % n
around n i k = rw mod-add-mod (ap (λ t. t % n) (omega arith))

module _ (world : Text → File) where
  pub play_lem :
      (p : Player) (path : Text)
      → p.is_destroyed ≡ false
      → deref p.current_playlist.tracks p.it_track ≡ some path
      → play world p ≡ some (play_path world p path)
  unfolding play
  play_lem p path a h = rw (play, h) (rw a refl)

  pub play-none :
      (p : Player) → deref p.current_playlist.tracks p.it_track ≡ none → play world p ≡ none
  unfolding play
  play-none p h = rw (play, h)

  -- Where the iterator points to an element, `play` plays it, and leaves the playlist.
  pub play-PlaysAt :
      (p : Player) (i : ℕ)
      → p.is_destroyed ≡ false
      → p.it_track ≡ at i
      → i < length p.current_playlist.tracks
      → (q : Player) × (play world p ≡ some q)
        × (q.current_playlist ≡ p.current_playlist)
        × PlaysAt q i
  unfolding play_path
  play-PlaysAt p i live e h =
      let (path, g) = get_elem?-some p.current_playlist.tracks i h in
      (
        play_path world p path,
        play_lem p path live (ap (deref p.current_playlist.tracks) e ∙ g),
        refl,
        record {
          position = e;
          inside = h;
          path = path;
          track = g;
          uri = ap (λ s. codes "file://" ++ s) (path-open_track world path);
          opened = path-open_track world path;
          pipeline = refl;
          started = refl;
          resumed = refl;
          alive = live;
        },
      )

  pub signal-PlaysAt :
      (p : Player) (i : ℕ)
      → PlaysAt p i
      → (e : List sws.Player.Effect) → PlaysAt (record p { effects = e }) i
  signal-PlaysAt p i a e = record {
    position = a.position;
    inside = a.inside;
    path = a.path;
    track = a.track;
    uri = a.uri;
    opened = a.opened;
    pipeline = a.pipeline;
    started = a.started;
    resumed = a.resumed;
    alive = a.alive;
  }

  pub next_lem :
      (p : Player) (c : Cursor) (q : Player)
      → forward (length p.current_playlist.tracks) p.it_track ≡ some c
      → play world (record p {
        it_track = wrap_end (length p.current_playlist.tracks) c;
        is_playing = false;
      })
        ≡ some q
      → next world p ≡ signalled (some q)
  unfolding next
  next_lem p c q h k = rw (next, h) (rw k)

  -- From a position inside the playlist `next` plays the track behind it, and behind the last one the
  -- first.
  pub next-PlaysAt :
      (p : Player) (i : ℕ)
      → p.is_destroyed ≡ false
      → p.it_track ≡ at i
      → i < length p.current_playlist.tracks
      → (q : Player) × (next world p ≡ some q)
        × (q.current_playlist ≡ p.current_playlist)
        × PlaysAt q ((i + 1) % length p.current_playlist.tracks)
  next-PlaysAt p i live e h =
      let n = length p.current_playlist.tracks in
      let (w, l) = following n i h in
      let (q, a, b, c) =
        play-PlaysAt (record p { it_track = wrap_end n (at (i + 1)); is_playing = false })
          ((i + 1) % n) live w l in
      (
        record q { effects = q.effects ++ sws.Player.signal ∷ [] },
        next_lem p (at (i + 1)) q (ap (forward n) e ∙ ground arith) a,
        b,
        signal-PlaysAt q ((i + 1) % n) c _,
      )

  pub previous_lem :
      (p : Player) (c : Cursor) (q : Player)
      → backward (length p.current_playlist.tracks) p.it_track ≡ some c
      → play world (record p { it_track = c; is_playing = false }) ≡ some q
      → previous world p ≡ signalled (some q)
  unfolding previous
  previous_lem p c q h k = rw (previous, h) (rw k)

  -- From a position inside the playlist `previous` plays the track that `next` leads back from.
  pub previous-PlaysAt :
      (p : Player) (i : ℕ)
      → p.is_destroyed ≡ false
      → p.it_track ≡ at i
      → i < length p.current_playlist.tracks
      → (q : Player) × (j : ℕ) × (previous world p ≡ some q)
        × (q.current_playlist ≡ p.current_playlist)
        × ((j + 1) % length p.current_playlist.tracks ≡ i)
        × PlaysAt q j
  previous-PlaysAt p i live e h =
      let n = length p.current_playlist.tracks in
      let (j, b, l, m) = preceding n i h in
      let (q, a, c, d) =
        play-PlaysAt (record p { it_track = at j; is_playing = false }) j live refl l in
      (
        record q { effects = q.effects ++ sws.Player.signal ∷ [] },
        j,
        previous_lem p (at j) q (ap (backward n) e ∙ b) a,
        c,
        m,
        signal-PlaysAt q j d _,
      )

  -- `next`, so many times.
  pub next_times : ℕ → Player → Option Player
  next_times zero p = some p
  next_times (suc k) p = elim (next world p) [ none ↦ none | some q ↦ next_times k q ]

  pub next_times-suc :
      (k : ℕ) (p q : Player) → next world p ≡ some q → next_times (suc k) p ≡ next_times k q
  unfolding next_times
  next_times-suc k p q h = rw (next_times, h)

  pub next_times-zero : (p : Player) → next_times zero p ≡ some p
  unfolding next_times
  next_times-zero p = refl

  -- From any position, repeated `next` goes round the playlist: after `k` times the position is `k`
  -- further, modulo the length, so every track gets its turn, in order.
  pub next_times-position :
      (k : ℕ) (p : Player) (i : ℕ)
      → p.is_destroyed ≡ false
      → p.it_track ≡ at i
      → i < length p.current_playlist.tracks
      → (q : Player) × (next_times k p ≡ some q)
        × (q.current_playlist ≡ p.current_playlist)
        × (q.it_track ≡ at ((i + k) % length p.current_playlist.tracks))
  unfolding next_times
  next_times-position zero p i live e h =
      let n = length p.current_playlist.tracks in
      (p, refl, refl, e ∙ ap at (sym (rw (add-zero i) (mod-eq_of_lt {n = i} {m = n} h))))
  next_times-position (suc k) p i live e h =
      let n = length p.current_playlist.tracks in
      let (q, a, b, c) = next-PlaysAt p i live e h in
      let (r, a', b', c') = next_times-position k q ((i + 1) % n) c.alive c.position c.inside in
      (r, rw (next_times, a) a', b' ∙ b, c' ∙ ap at (rw b (around n i k)))

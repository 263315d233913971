-- ===== src/Player/Peek.antt =====
-- What the player announces as the next track.
use sws.Base.{
  ℕ, zero, suc, ◌+◌, ◌%◌, ◌<◌, ◌≡◌, ap, ◌∙◌, sym, Bool, true, false, not, ◌&&◌, some, List, [], ◌∷◌,
  length, get_elem?, get_elem?-some, arith, Text, ◌==◌, if◌then◌else◌, same, same_refl, same→eq,
}
use sws.Track.{File}
use sws.Playlist.{Playlist, index_loop, index_of}
use sws.Player.{Player, at, next, peak_next, deref}
use sws.Player.Steps.{next-PlaysAt, following}

abbrev pub contains : Text → List Text → Bool
contains p [] = false
contains p (t ∷ ts) = if same p t then true else contains p ts

-- No track stands twice in the list.
abbrev pub distinct : List Text → Bool
distinct [] = true
distinct (t ∷ ts) = not (contains t ts) && distinct ts

contains-get_elem? :
    (ts : List Text) (i : ℕ) (p : Text) → get_elem? ts i ≡ some p → contains p ts ≡ true
contains-get_elem? [] i p h = ground arith
contains-get_elem? (t ∷ ts) zero p h = let e : p ≡ t = ground arith in rw (e, same_refl t)
contains-get_elem? (t ∷ ts) (suc i) p h = ground (arith, contains-get_elem? ts i p h)

pub index_loop-distinct :
    (ts : List Text) (i k : ℕ) (p : Text)
    → distinct ts ≡ true
    → get_elem? ts i ≡ some p
    → index_loop p ts k ≡ k + i
unfolding index_loop
index_loop-distinct [] i k p d h = absurd (ground arith)
index_loop-distinct (t ∷ ts) zero k p d h =
    let e : p ≡ t = ground arith in rw (e, same_refl t) (omega arith)
index_loop-distinct (t ∷ ts) (suc i) k p d h =
    ground (arith, contains-get_elem? ts i p h, same→eq p t, index_loop-distinct ts i (k + 1) p)

pub peak_next_lem :
    (p : Player) (path : Text)
    → deref p.current_playlist.tracks p.it_track ≡ some path
    → peak_next p
      ≡ get_elem? p.current_playlist.tracks (
          if index_of p.current_playlist path + 1 == length p.current_playlist.tracks
          then 0
          else index_of p.current_playlist path + 1)
unfolding peak_next
peak_next_lem p path h = rw (peak_next, h)

pub wrap_index : (n i : ℕ) → i < n → (if i + 1 == n then 0 else i + 1) ≡ (i + 1) % n
wrap_index n i h = ground (arith, following n i h)

-- Where no track stands twice, what is announced as the next track is what `next` plays.
pub peak_next-next :
    (world : Text → File) (p : Player) (i : ℕ)
    → p.is_destroyed ≡ false
    → p.it_track ≡ at i
    → i < length p.current_playlist.tracks
    → distinct p.current_playlist.tracks ≡ true
    → (q : Player) × (next world p ≡ some q) × (peak_next p ≡ some q.current_track.path)
unfolding index_of
peak_next-next world p i live e h d =
    let (q, a, b, c) = next-PlaysAt world p i live e h in
    let (path, g) = get_elem?-some p.current_playlist.tracks i h in
    let k : index_of p.current_playlist path ≡ i =
      index_loop-distinct p.current_playlist.tracks i 0 path d g ∙ omega arith in
    let t : get_elem? p.current_playlist.tracks ((i + 1) % length p.current_playlist.tracks)
        ≡ some c.path =
      ap (λ (l : Playlist). get_elem? l.tracks ((i + 1) % length p.current_playlist.tracks)) (sym b)
      ∙ c.track in
    (
      q,
      a,
      peak_next_lem p path (ap (deref p.current_playlist.tracks) e ∙ g)
          ∙ rw (k, wrap_index (length p.current_playlist.tracks) i h) (t ∙ ap some (sym c.opened)),
    )

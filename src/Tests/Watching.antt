-- ===== src/Tests/Watching.antt =====
-- inotify on a machine that stores the low byte first, and a directory that is created.
use sws.Base.{
  ℕ, zero, suc, ◌+◌, ◌-◌, ◌*◌, ◌/◌, ◌%◌, ◌^◌, ◌<◌, ◌≤◌, ◌≡◌, ◌≢◌, refl, ap, ◌∙◌, Bool, true, false,
  not, ◌&&◌, ◌||◌, Option, some, none, List, [], ◌∷◌, ◌++◌, if◌then◌else◌, ◌==◌, ltb, length, drop,
  take, replicate, Text, codes, arith, length-append, length-replicate, get_or,
}
use sws.Player.Startup.{holds}
use sws.Player.Startup.Gathered.{unique}
use sws.Player.Watcher.{Event, Inotify, is_whole, has_zero, file_watcher}
use sws.Player.Watcher.Created.{Arrival, events, wakes_of, populate_arrivals, file_watcher-catalog}
use sws.Tests.Startups.{entries, library}

abbrev le32 : ℕ → List ℕ
le32 n = n % 256 ∷ n / 256 % 256 ∷ n / 65536 % 256 ∷ n / 16777216 % 256 ∷ []

-- The number at an offset.
abbrev number_at : ℕ → List ℕ → ℕ
number_at k b =
    let t = drop k b in
    get_or t 0 0 + 256 * get_or t 1 0 + 65536 * get_or t 2 0 + 16777216 * get_or t 3 0

c_string : List ℕ → Text
c_string [] = []
c_string (c ∷ s) = let t = c_string s in if c == 0 then [] else c ∷ t

c_string-padded :
    (s : Text) (n : ℕ) (rest : List ℕ)
    → has_zero s ≡ false
    → 0 < n
    → c_string ((s ++ replicate n 0) ++ rest) ≡ s
unfolding c_string
c_string-padded [] zero rest h p = absurd (omega arith)
c_string-padded [] (suc n) rest h p = refl
c_string-padded (c ∷ s) n rest h p = ground (arith, c_string-padded s n rest)

abbrev bytes : Event → List ℕ
bytes e =
    (0 ∷ 0 ∷ 0 ∷ 0 ∷ [])
    ++ (le32 e.mask
        ++ ((0 ∷ 0 ∷ 0 ∷ 0 ∷ [])
            ++ (le32 e.len
                ++ (if e.len == 0 then [] else e.name ++ replicate (e.len - length e.name) 0))))

length-bytes : (e : Event) → is_whole e ≡ true → length (bytes e) ≡ 16 + e.len
length-bytes e h =
    let r = length-replicate (e.len - length e.name) (zero) in
    ground (arith, r, length-append e.name (replicate (e.len - length e.name) 0))

name-bytes :
    (e : Event) (rest : List ℕ)
    → is_whole e ≡ true
    → (e.len == 0) ≡ false
    → c_string (drop 16 (bytes e ++ rest)) ≡ e.name
name-bytes e rest h z =
    rw z (c_string-padded e.name (e.len - length e.name) rest (ground arith) (ground arith))

mask-bytes :
    (e : Event) (rest : List ℕ) → is_whole e ≡ true → number_at 4 (bytes e ++ rest) ≡ e.mask
mask-bytes e rest h = ground arith

len-bytes : (e : Event) (rest : List ℕ) → is_whole e ≡ true → number_at 12 (bytes e ++ rest) ≡ e.len
len-bytes e rest h = ground arith

abbrev inotify : Inotify
inotify = record {
  event_size = 16;
  mask = number_at 4;
  len = number_at 12;
  name = λ b. c_string (drop 16 b);
  in_create = λ m. m / 256 % 2 == 1;
  in_isdir = λ m. m / 2 ^ 30 % 2 == 1;
  layout = bytes;
  size_positive = omega arith;
  length-layout = length-bytes;
  mask-layout = mask-bytes;
  len-layout = len-bytes;
  name-layout = name-bytes;
}

-- A directory with a track is created, and a file.
abbrev arrived : List Arrival
arrived =
    events
      (record { mask = 0x100; len = 16; name = codes "a.mp3" }
        ∷ record { mask = 0x40000100; len = 16; name = codes "new" }
        ∷ [])
      (7 ∷ 7 ∷ []) (λ d. entries)
    ∷ []

file_watcher-catalog_example :
    (file_watcher inotify
        (λ s. true)
        (λ s. none)
        (codes "/media/")
        true
        (wakes_of inotify arrived)
        library
      ≡ some (populate_arrivals inotify (λ s. true) (λ s. none) (codes "/media/") arrived library))
    × (unique
          (populate_arrivals inotify
            (λ s. true)
            (λ s. none)
            (codes "/media/")
            arrived
            library).catalog
        ≡ true)
    × (holds
          (codes "/m/n.mp3")
          (populate_arrivals inotify
            (λ s. true)
            (λ s. none)
            (codes "/media/")
            arrived
            library).catalog
        ≡ true)
unfolding holds sws.Base.same sws.Playlist.is_playlist_file sws.Track.is_audio_mime
file_watcher-catalog_example =
    file_watcher-catalog inotify (λ s. true) (λ s. none) (codes "/media/") arrived library
      (codes "/m/n.mp3") ((refl, (refl, tt)), tt) refl

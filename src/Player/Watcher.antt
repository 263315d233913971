-- ===== src/Player/Watcher.antt =====
-- src/player.cpp, `file_watcher`: a directory that appears in the music root is read.
--
-- inotify is a parameter: how an event lies in the buffer, and what the reads yield.
pub mod Created
use sws.Base.{
  ℕ, zero, suc, ◌+◌, ◌<◌, ◌≡◌, Bool, true, false, not, ◌&&◌, ◌||◌, ◌^◌, Option, none, some, List,
  [], ◌∷◌, ◌++◌, if◌then◌else◌, ◌==◌, ltb, length, drop, Text, codes, ◌>>=◌,
}
use sws.Player.Startup.{DirectoryEntry, Library, populate}

-- An event, as inotify(7) describes `struct inotify_event`: `len` counts the bytes of the name with
-- the zero bytes behind it.
pub record Event : Type 0 where
  pub mask : ℕ
  pub len : ℕ
  pub name : Text

abbrev pub has_zero : List ℕ → Bool
has_zero [] = false
has_zero (c ∷ s) = c == 0 || has_zero s

-- What the kernel writes: 32-bit numbers, and a name that ends before its bytes do. An event without a
-- name has no bytes for it.
abbrev pub is_whole : Event → Bool
is_whole e =
    ltb e.mask (2 ^ 32)
    && (ltb e.len (2 ^ 32) && (e.len == 0 || (ltb (length e.name) e.len && not (has_zero e.name))))

-- What the header of inotify gives: the size of the structure without the name, the members of the
-- event that begins where some bytes do, and the tests of the mask for IN_CREATE and IN_ISDIR.
pub record Inotify : Type 0 where
  pub event_size : ℕ
  pub mask : List ℕ → ℕ
  pub len : List ℕ → ℕ
  pub name : List ℕ → Text
  pub in_create : ℕ → Bool
  pub in_isdir : ℕ → Bool
  -- the bytes of an event, whatever follows them
  pub layout : Event → List ℕ
  pub size_positive : 0 < event_size
  pub length-layout : (e : Event) → is_whole e ≡ true → length (layout e) ≡ event_size + e.len
  pub mask-layout :
      (e : Event) (rest : List ℕ) → is_whole e ≡ true → mask (layout e ++ rest) ≡ e.mask
  pub len-layout : (e : Event) (rest : List ℕ) → is_whole e ≡ true → len (layout e ++ rest) ≡ e.len
  pub name-layout :
      (e : Event) (rest : List ℕ)
      → is_whole e ≡ true
      → (e.len == 0) ≡ false
      → name (layout e ++ rest) ≡ e.name

-- The return of a `read`: it failed, or the buffer holds as many new bytes as `length` says, before
-- those of earlier reads. `entries` is what the directory iterator yields from now on for a directory.
pub data Wake : Type 0 where
  failed : Wake
  filled : (buffer : List ℕ) (length : ℕ) (entries : Text → List DirectoryEntry) → Wake

module _ (I : Inotify) (exists : Text → Bool) (contents : Text → Option Text) (root : Text) where
  -- The body of the inner loop, without its last line, for the event at the head of the bytes.
  unfoldable pub on_event : (Text → List DirectoryEntry) → List ℕ → Library → Library
  on_event entries event l =
      if not (I.len event == 0) && (I.in_create (I.mask event) && I.in_isdir (I.mask event))
      then populate exists contents (entries (root ++ (I.name event ++ codes "/"))) l
      else l

  -- `while (i < length)`, on fuel: none where it runs out.
  unfoldable pub scan_events :
      ℕ → (Text → List DirectoryEntry) → List ℕ → (length i : ℕ) → Library → Option Library
  scan_events zero entries buffer n i l = none
  scan_events (suc fuel) entries buffer n i l =
      let event = drop i buffer in
      let rest =
        scan_events fuel entries buffer n (i + (I.event_size + I.len event))
          (on_event entries event l) in
      if ltb i n then rest else some l

  -- `while (true)`, over the returns of `read`; behind the last one it waits. An event takes at least
  -- one byte, so there are no more rounds than bytes.
  unfoldable pub watch : List Wake → Library → Option Library
  watch [] l = some l
  watch (failed ∷ wakes) l = some l
  watch (filled buffer n entries ∷ wakes) l = do
    l' ← scan_events (suc n) entries buffer n 0 l
    watch wakes l'

  -- `file_watcher()`, given whether `inotify_init` succeeds.
  unfoldable pub file_watcher : Bool → List Wake → Library → Option Library
  file_watcher false wakes l = some l
  file_watcher true wakes l = watch wakes l

-- ===== src/Player/Watcher/Created.antt =====
-- The directories that the watcher of src/player.cpp reads.
use sws.Base.{
  ℕ, zero, suc, ◌+◌, ◌<◌, ◌≡◌, refl, ◌∙◌, Bool, true, false, not, ◌&&◌, ◌||◌, Option, some, List,
  [], ◌∷◌, ◌++◌, if◌then◌else◌, ◌==◌, ltb, length, drop, Text, codes, arith, length-append,
  drop-append, lt→ltb, Bool-cases, inl, inr,
}
use mathlib.Core.List.{append_assoc}
use sws.Player.Startup.{DirectoryEntry, Library, populate, holds}
use sws.Player.Startup.Gathered.{unique, lists_track, populate-catalog}
use sws.Player.Watcher.{
  Event, Inotify, is_whole, Wake, failed, filled, on_event, scan_events, watch, file_watcher,
}

-- A return of `read` with whole events before some other bytes, or a failure.
pub data Arrival : Type 0 where
  failure : Arrival
  events : List Event → (stale : List ℕ) → (Text → List DirectoryEntry) → Arrival

-- All events are whole.
abbrev pub AllWhole : List Event → Type 0
AllWhole [] = Unit
AllWhole (e ∷ es) = (is_whole e ≡ true) × AllWhole es

abbrev pub AllArrive : List Arrival → Type 0
AllArrive [] = Unit
AllArrive (failure ∷ as') = AllArrive as'
AllArrive (events es stale entries ∷ as') = AllWhole es × AllArrive as'

module _ (I : Inotify) where
  abbrev pub layouts : List Event → List ℕ
  layouts [] = []
  layouts (e ∷ es) = I.layout e ++ layouts es

  abbrev pub wake_of : Arrival → Wake
  wake_of failure = failed
  wake_of (events es stale entries) = filled (layouts es ++ stale) (length (layouts es)) entries

  abbrev pub wakes_of : List Arrival → List Wake
  wakes_of [] = []
  wakes_of (a ∷ as') = wake_of a ∷ wakes_of as'

  -- Whether the event tells of a directory that was created.
  abbrev pub is_new_directory : Event → Bool
  is_new_directory e = not (e.len == 0) && (I.in_create e.mask && I.in_isdir e.mask)

  module _ (exists : Text → Bool) (contents : Text → Option Text) (root : Text) where
    abbrev pub populate_new : (Text → List DirectoryEntry) → List Event → Library → Library
    populate_new entries [] l = l
    populate_new entries (e ∷ es) l = populate_new entries es (
        if is_new_directory e
        then populate exists contents (entries (root ++ (e.name ++ codes "/"))) l
        else l)

    on_event-layout :
        (entries : Text → List DirectoryEntry) (e : Event) (rest : List ℕ) (l : Library)
        → is_whole e ≡ true
        → on_event I exists contents root entries (I.layout e ++ rest) l ≡ (
            if is_new_directory e
            then populate exists contents (entries (root ++ (e.name ++ codes "/"))) l
            else l)
    unfolding on_event
    on_event-layout entries e rest l w =
        rw (I.len-layout e rest w, I.mask-layout e rest w)
          (elim (Bool-cases (e.len == 0)) [ inl z ↦ rw z | inr z ↦ rw (I.name-layout e rest w z) ])

    -- `seen` is what stands before the index.
    scan_events-layouts :
        (fuel : ℕ) (entries : Text → List DirectoryEntry) (es : List Event)
        (seen stale buffer : List ℕ) (n i : ℕ) (l : Library)
        → AllWhole es
        → buffer ≡ seen ++ (layouts es ++ stale)
        → i ≡ length seen
        → n ≡ length seen + length (layouts es)
        → length (layouts es) < fuel
        → scan_events I exists contents root fuel entries buffer n i l
          ≡ some (populate_new entries es l)
    unfolding scan_events
    scan_events-layouts zero entries es seen stale buffer n i l w b p q f = absurd (omega arith)
    scan_events-layouts (suc fuel) entries [] seen stale buffer n i l w b p q f = ground arith
    scan_events-layouts (suc fuel) entries (e ∷ es) seen stale buffer n i l w b p q f =
        let size : length (layouts (e ∷ es)) ≡ I.event_size + e.len + length (layouts es) =
          omega (arith, length-append (I.layout e) (layouts es), I.length-layout e w.0) in
        let positive = I.size_positive in
        let here : drop i buffer ≡ I.layout e ++ (layouts es ++ stale) =
          rw (b, p) (drop-append seen _ ∙ append_assoc (I.layout e) (layouts es) stale) in
        let more : ltb i n ≡ true = lt→ltb i n (omega arith) in
        rw
          (
            here,
            on_event-layout entries e (layouts es ++ stale) l w.0,
            I.len-layout e (layouts es ++ stale) w.0,
            more,
          )
          (scan_events-layouts fuel entries es (seen ++ I.layout e) stale buffer n
            (i + (I.event_size + e.len)) _ w.1 (b ∙ simp append_assoc)
            (omega (arith, length-append seen (I.layout e), I.length-layout e w.0))
            (omega (arith, length-append seen (I.layout e), I.length-layout e w.0)) (omega arith))

    -- The returns up to the first failure.
    abbrev pub populate_arrivals : List Arrival → Library → Library
    populate_arrivals [] l = l
    populate_arrivals (failure ∷ as') l = l
    populate_arrivals (events es stale entries ∷ as') l =
        populate_arrivals as' (populate_new entries es l)

    watch-wakes_of :
        (as' : List Arrival) (l : Library)
        → AllArrive as'
        → watch I exists contents root (wakes_of as') l ≡ some (populate_arrivals as' l)
    unfolding watch
    watch-wakes_of [] l w = refl
    watch-wakes_of (failure ∷ as') l w = refl
    watch-wakes_of (events es stale entries ∷ as') l w =
        rw
          (scan_events-layouts (suc (length (layouts es))) entries es [] stale (layouts es ++ stale)
            (length (layouts es)) 0 l w.0 refl refl (omega arith) (omega arith))
          (watch-wakes_of as' (populate_new entries es l) w.1)

    -- Whether the path is that of a track in a directory that was created, before a failure.
    abbrev pub created_with : Text → (Text → List DirectoryEntry) → List Event → Bool
    created_with s entries [] = false
    created_with s entries (e ∷ es) =
        (is_new_directory e && lists_track s (entries (root ++ (e.name ++ codes "/"))))
        || created_with s entries es

    abbrev pub arrives : Text → List Arrival → Bool
    arrives s [] = false
    arrives s (failure ∷ as') = false
    arrives s (events es stale entries ∷ as') = created_with s entries es || arrives s as'

    populate_new-catalog :
        (entries : Text → List DirectoryEntry) (es : List Event) (l : Library) (s : Text)
        → unique l.catalog ≡ true
        → (unique (populate_new entries es l).catalog ≡ true)
          × (holds s (populate_new entries es l).catalog
              ≡ (holds s l.catalog || created_with s entries es))
    populate_new-catalog entries [] l s u = (u, ground arith)
    populate_new-catalog entries (e ∷ es) l s u =
        let d = entries (root ++ (e.name ++ codes "/")) in
        let l' = populate exists contents d l in
        ground (
          arith,
          populate-catalog exists contents d l s u,
          populate_new-catalog entries es l s,
          populate_new-catalog entries es l' s,
        )

    populate_arrivals-catalog :
        (as' : List Arrival) (l : Library) (s : Text)
        → unique l.catalog ≡ true
        → (unique (populate_arrivals as' l).catalog ≡ true)
          × (holds s (populate_arrivals as' l).catalog ≡ (holds s l.catalog || arrives s as'))
    populate_arrivals-catalog [] l s u = (u, ground arith)
    populate_arrivals-catalog (failure ∷ as') l s u = (u, ground arith)
    populate_arrivals-catalog (events es stale entries ∷ as') l s u = ground (
      arith,
      populate_new-catalog entries es l s u,
      populate_arrivals-catalog as' (populate_new entries es l) s,
    )

    -- Where the reads yield whole events, in a buffer with any other bytes behind them, or fail, the
    -- watcher never runs out of fuel and populates with the directories that were created, one after
    -- the other, up to a failure. Then the catalogue's playlist has the tracks that it had and those
    -- of these directories, and none of them twice if none was before.
    pub file_watcher-catalog :
        (as' : List Arrival) (l : Library) (s : Text)
        → AllArrive as'
        → unique l.catalog ≡ true
        → (file_watcher I exists contents root true (wakes_of as') l
            ≡ some (populate_arrivals as' l))
          × (unique (populate_arrivals as' l).catalog ≡ true)
          × (holds s (populate_arrivals as' l).catalog ≡ (holds s l.catalog || arrives s as'))
    unfolding file_watcher
    file_watcher-catalog as' l s w u =
        let c = populate_arrivals-catalog as' l s u in (watch-wakes_of as' l w, c.0, c.1)

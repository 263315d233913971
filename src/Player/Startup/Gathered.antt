-- ===== src/Player/Startup/Gathered.antt =====
-- The tracks and the playlists that the player has gathered.
use sws.Base.{
  ◌≡◌, refl, ap, ◌∙◌, Bool, true, false, not, ◌&&◌, ◌||◌, List, [], ◌∷◌, ◌++◌, arith, Text, Option,
  same, same→eq, same_refl, map,
}
use sws.Playlist.{Playlist, is_playlist_file, from_file, from_tracks}
use sws.Track.{is_audio_mime}
use sws.Player.Startup.{
  DirectoryEntry, Library, Outside, holds, add_playlist, add_track, add_entry, add_entries,
  populate, populate_from_db, gather,
}

-- No path stands twice.
abbrev pub unique : List Text → Bool
unique [] = true
unique (t ∷ ts) = not (holds t ts) && unique ts

holds-append :
    (s : Text) (ts : List Text) (t : Text) → holds s (ts ++ t ∷ []) ≡ (holds s ts || same t s)
unfolding holds
holds-append s [] t = ground arith
holds-append s (x ∷ ts) t = ground (arith, holds-append s ts t)

unique-append :
    (ts : List Text) (t : Text)
    → unique ts ≡ true
    → holds t ts ≡ false
    → unique (ts ++ t ∷ []) ≡ true
unfolding holds
unique-append [] t u h = refl
unique-append (x ∷ ts) t u h =
    ground (arith, holds-append x ts t, unique-append ts t, same→eq t x, same→eq x t, same_refl x)

-- Whether the path is that of an entry which is a track: a regular file that is no playlist, and of a
-- type that begins with "audio" or "video".
abbrev pub is_track_entry : Text → DirectoryEntry → Bool
is_track_entry s e =
    e.is_regular_file && (not (is_playlist_file e.path) && (is_audio_mime e.mime && same e.path s))

abbrev pub lists_track : Text → List DirectoryEntry → Bool
lists_track s [] = false
lists_track s (e ∷ es) = is_track_entry s e || lists_track s es

catalog-add_playlist :
    (p : Playlist × List Text) (l : Library) → (add_playlist p l).catalog ≡ l.catalog
unfolding add_playlist
catalog-add_playlist p l = ground arith

module _ (exists : Text → Bool) (contents : Text → Option Text) where
  holds-add_entry :
      (s : Text) (e : DirectoryEntry) (l : Library)
      → holds s (add_entry exists contents e l).catalog ≡ (holds s l.catalog || is_track_entry s e)
  unfolding add_entry add_track
  holds-add_entry s e l = ground (
    arith,
    catalog-add_playlist (from_file exists (contents e.path) e.path) l,
    holds-append s l.catalog e.path,
    same→eq e.path s,
  )

  holds-add_entries :
      (s : Text) (es : List DirectoryEntry) (l : Library)
      → holds s (add_entries exists contents es l).catalog ≡ (holds s l.catalog || lists_track s es)
  unfolding add_entries
  holds-add_entries s [] l = ground arith
  holds-add_entries s (e ∷ es) l =
      ground (arith, holds-add_entry s e l, holds-add_entries s es (add_entry exists contents e l))

  unique-add_entry :
      (e : DirectoryEntry) (l : Library)
      → unique l.catalog ≡ true
      → unique (add_entry exists contents e l).catalog ≡ true
  unfolding add_entry add_track
  unique-add_entry e l u = ground (
    arith,
    catalog-add_playlist (from_file exists (contents e.path) e.path) l,
    unique-append l.catalog e.path,
  )

  unique-add_entries :
      (es : List DirectoryEntry) (l : Library)
      → unique l.catalog ≡ true
      → unique (add_entries exists contents es l).catalog ≡ true
  unfolding add_entries
  unique-add_entries [] l u = u
  unique-add_entries (e ∷ es) l u =
      unique-add_entries es (add_entry exists contents e l) (unique-add_entry e l u)

  -- After `populate` the catalogue's playlist has the tracks that it had and those among the entries,
  -- and none of them twice.
  pub populate-catalog :
      (es : List DirectoryEntry) (l : Library) (s : Text)
      → unique l.catalog ≡ true
      → (unique (populate exists contents es l).catalog ≡ true)
        × (holds s (populate exists contents es l).catalog
            ≡ (holds s l.catalog || lists_track s es))
  unfolding populate
  populate-catalog es l s u = (unique-add_entries es l u, holds-add_entries s es l)

  -- Where all entries that are tracks are held already, the tracks stay as they are.
  add_entry-held :
      (e : DirectoryEntry) (l : Library)
      → (is_track_entry e.path e ≡ true → holds e.path l.catalog ≡ true)
      → (add_entry exists contents e l).catalog ≡ l.catalog
  unfolding add_entry add_track
  add_entry-held e l h = ground (
    arith,
    catalog-add_playlist (from_file exists (contents e.path) e.path) l,
    same_refl e.path,
    h,
  )

  add_entries-held :
      (es : List DirectoryEntry) (l : Library)
      → ((s : Text) → lists_track s es ≡ true → holds s l.catalog ≡ true)
      → (add_entries exists contents es l).catalog ≡ l.catalog
  unfolding add_entries
  add_entries-held [] l h = refl
  add_entries-held (e ∷ es) l h =
      let f : (add_entry exists contents e l).catalog ≡ l.catalog =
        add_entry-held e l (λ t. h e.path (ground arith)) in
      add_entries-held es (add_entry exists contents e l) (λ s t. rw f (h s (ground arith))) ∙ f

  -- Populating again with the same entries adds no track.
  pub populate-again :
      (es : List DirectoryEntry) (l : Library)
      → (populate exists contents es (populate exists contents es l)).catalog
        ≡ (populate exists contents es l).catalog
  unfolding populate
  populate-again es l =
      add_entries-held es (populate exists contents es l)
        λ s h. ground (arith, holds-add_entries s es l)

-- The names of playlists.
abbrev pub names : List Playlist → List Text
names = map (λ (p : Playlist). p.name)

pub names-populate_from_db :
    (f : Text → List Text) (tables : List Text) → names (populate_from_db f tables) ≡ tables
unfolding populate_from_db from_tracks
names-populate_from_db f [] = refl
names-populate_from_db f (s ∷ tables) = ap (λ t. s ∷ t) (names-populate_from_db f tables)

-- Whatever `populate` has found, the names of the playlists are those of the tables that were asked for
-- before it.
pub names-gather :
    (o : Outside) (tables : List Text) (catalog : Playlist)
    → names (gather o tables catalog).playlists ≡ tables
unfolding gather
names-gather o tables catalog = ground (
  arith,
  names-populate_from_db o.select_playlist tables,
  names-populate_from_db o.select_after tables,
)

-- ===== src/Player/Startup.antt =====
-- src/player.cpp, the constructor, `populate`, `populate_from_db`, `exists` and `start`: how the player
-- gathers its playlists, and where it begins.
--
-- What the outside answers is a parameter: the entries that the directory iterator yields, the tables,
-- playlists and positions of the database, and the configuration.
pub mod Gathered
pub mod Resumes
use sws.Base.{
  ℕ, ◌+◌, Bool, true, false, not, ◌||◌, ◌&&◌, Option, none, some, List, [], ◌∷◌, ◌++◌,
  if◌then◌else◌, ◌==◌, ltb, length, Text, same, codes,
}
use sws.Base.Texts.{ℤ}
use sws.Db.Statements.{insert_path, add_to_playlist}
use sws.Track.{File, blank, is_audio_mime}
use sws.Playlist.{Playlist, is_playlist_file, from_file, from_tracks, copied}
use sws.Player
use sws.Player.{Player, Cursor, Effect, named, statements, at, null, play, signal}

-- An entry of the directory: whether it is a regular file, and the type that libmagic gives it.
pub record DirectoryEntry : Type 0 where
  pub path : Text
  pub is_regular_file : Bool
  pub mime : Text

-- What `populate` changes: `playlists`, `db_catalog.tracks`, and what it does beside.
pub record Library : Type 0 where
  pub playlists : List Playlist
  pub catalog : List Text
  pub effects : List Effect

-- `exists(playlist)`, by the name.
unfoldable pub exists_named : Text → List Playlist → Bool
exists_named name [] = false
exists_named name (p ∷ playlists) =
    let rest = exists_named name playlists in if same p.name name then true else rest

-- `find(tracks.begin(), tracks.end(), s) != tracks.end()`
unfoldable pub holds : Text → List Text → Bool
holds s [] = false
holds s (t ∷ tracks) = let rest = holds s tracks in if same t s then true else rest

unfoldable pub add_playlist : Playlist × List Text → Library → Library
unfolding exists_named copied
add_playlist (pl, pushed) l =
    if not (exists_named pl.name l.playlists)
    then record l {
      playlists = l.playlists ++ copied pl ∷ [];
      effects = l.effects ++ statements pushed;
    }
    else record l {
      effects = l.effects ++ (statements pushed ++ statements (add_to_playlist pl.name pl.tracks));
    }

unfoldable pub add_track : Text → Library → Library
unfolding holds
add_track s l = if holds s l.catalog then l else record l {
  catalog = l.catalog ++ s ∷ [];
  effects = l.effects ++ statements (insert_path s);
}

-- `exists` and `contents` are the file system, for the constructor of a playlist.
module _ (exists : Text → Bool) (contents : Text → Option Text) where
  unfoldable pub add_entry : DirectoryEntry → Library → Library
  add_entry e l =
      if not e.is_regular_file
      then l
      else if is_playlist_file e.path
      then add_playlist (from_file exists (contents e.path) e.path) l
      else if is_audio_mime e.mime
      then add_track e.path l
      else l

  -- The loop of `populate`.
  unfoldable pub add_entries : List DirectoryEntry → Library → Library
  add_entries [] l = l
  add_entries (e ∷ es) l = add_entries es (add_entry e l)

  unfoldable pub populate : List DirectoryEntry → Library → Library
  populate es l =
      let filled = add_entries es l in record filled { effects = filled.effects ++ signal ∷ [] }

-- `populate_from_db`
unfoldable pub populate_from_db : (Text → List Text) → List Text → List Playlist
populate_from_db select_playlist [] = []
populate_from_db select_playlist (s ∷ tables) =
    from_tracks s (select_playlist s) ∷ populate_from_db select_playlist tables

-- `while (tables.size() == 0) tables = _db->tables();`, given the answers in turn. There is none where
-- they are all empty, and the loop does not end.
unfoldable pub await_tables : List (List Text) → Option (List Text)
await_tables [] = none
await_tables ([] ∷ answers) = await_tables answers
await_tables ((t ∷ ts) ∷ answers) = some (t ∷ ts)

-- `get_playlist_current`, as an unsigned long: a negative position is a large one.
abbrev pub advance : ℕ → ℤ → Cursor
advance size (ℤ.pos n) = if ltb n size then at n else at 0
advance size (ℤ.negsuc n) = at 0

-- `while (!_db->empty_queue());`, given the answers in turn: whether the loop ends.
unfoldable pub await_empty : List Bool → Bool
await_empty [] = false
await_empty (true ∷ answers) = true
await_empty (false ∷ answers) = await_empty answers

-- Whether the constructor populates.
abbrev pub is_bare : List Text → Playlist → Bool
is_bare tables catalog = ltb (length tables) 1 || length catalog.tracks == 0

-- What the constructor is told. The database answers `select_playlist` once more, with what
-- `populate` has pushed, when its queue is empty.
pub record Outside : Type 0 where
  pub tables : List (List Text)
  pub select_playlist : Text → List Text
  pub select_after : Text → List Text
  pub entries : List DirectoryEntry
  pub file_exists : Text → Bool
  pub file_contents : Text → Option Text
  pub queue_empty : List Bool
  pub current_playlist : Text
  pub current : Text → ℤ

-- The playlists, the tracks of `db_catalog` and the effects, where `named` has found the catalogue.
unfoldable pub gather : Outside → List Text → Playlist → Library
unfolding populate
gather o tables catalog =
    let fetched : Library = record {
      playlists = populate_from_db o.select_playlist tables;
      catalog = catalog.tracks;
      effects = signal ∷ [];
    } in
    let filled = populate o.file_exists o.file_contents o.entries fetched in
    if is_bare tables catalog
    then record filled {
      playlists = populate_from_db o.select_after tables;
      effects = filled.effects ++ signal ∷ [];
    }
    else fetched

-- The rest of the constructor.
unfoldable pub begin_at : Outside → List Text → Library → Playlist → Player
begin_at o tables l current = record {
  playlists = l.playlists;
  playlist_tables = tables;
  it = at 0;
  current_playlist = current;
  it_track = advance (length current.tracks) (o.current current.name);
  current_track = blank;
  is_destroyed = false;
  is_playing = false;
  is_paused = false;
  pipeline = null;
  uri = [];
  bus_watch = true;
  effects = l.effects;
}

-- `player()`. The two flags, which it does not set, are false. There is none where one of its two loops
-- does not end: it waits for a table, and behind `populate` until `empty_queue` says so. It destroys
-- `current_track` before anything was assigned to it: its texts are empty and stand inside the object, so
-- that with libstdc++ nothing is freed, and the members are as they were made. This destroyed track is
-- taken to be usable, where the standard leaves its use undefined in every run.
unfoldable pub player : Outside → Option Player
player o = elim (await_tables o.tables) [
  | none ↦ none
  | some tables ↦ elim (named (populate_from_db o.select_playlist tables) (codes "db_catalog")) [
    | none ↦ none
    | some catalog ↦
        let l = gather o tables catalog in
        let waits = is_bare tables catalog && not (await_empty o.queue_empty) in
        if waits then none else elim (named l.playlists o.current_playlist) [
          | none ↦ none
          | some current ↦ some (begin_at o tables l current)
        ]
  ]
]

-- `start`, up to the main loop.
unfoldable pub start : (Text → File) → Player → Option Player
start world p = play world (record p { is_playing = false })

-- ===== src/Playlist.antt =====
-- src/playlist.cpp and include/playlist.h: a playlist, the m3u files that it is read from and
-- written to, and the edits of its tracks.
pub mod Lines
pub mod Edit
pub mod Export
use sws.Base.{
  ℕ, zero, suc, ◌+◌, ◌-◌, Bool, true, false, not, ◌||◌, ◌&&◌, Option, none, some, List, [], ◌∷◌,
  ◌++◌, reverse, if◌then◌else◌, ◌==◌, leb, ltb, length, take, drop, get_elem?, Text, same, codes,
  map,
}
use sws.Db.{Song}
use sws.Db.Statements.{add_to_playlist, insert_playlist, remove_playlist}
use Lines.{lines}

pub record Playlist : Type 0 where
  pub name : Text
  pub source : Text
  -- none where it was never set
  pub current : Option ℕ
  pub tracks : List Text

-- `playlist(const playlist&)`, which copies the name and the tracks. `current` is not set. Assigning
-- the copy reads it, as memory that nobody looks at again.
unfoldable pub copied : Playlist → Playlist
copied l = record l { source = []; current = none }

-- What stands behind the last byte `d`, or the whole text.
unfoldable pub after_last : ℕ → Text → Text → Text
after_last d kept [] = kept
after_last d kept (c ∷ s) = after_last d (if c == d then s else kept) s

-- Whether `d` stands in the text.
unfoldable pub has_byte : ℕ → Text → Bool
has_byte d [] = false
has_byte d (c ∷ s) = c == d || has_byte d s

-- `path::filename`, `path::has_extension`, `path::extension` without its dot and `path::stem`, of
-- std::experimental::filesystem: the names "." and ".." have no extension.
unfoldable pub filename : Text → Text
unfolding after_last
filename p = after_last b'/' p p

unfoldable pub has_extension : Text → Bool
unfolding filename has_byte same
has_extension p =
    has_byte b'.' (filename p)
    && not (same (filename p) (codes ".") || same (filename p) (codes ".."))

unfoldable pub extension : Text → Text
unfolding filename after_last
extension p = after_last b'.' [] (filename p)

unfoldable pub stem : Text → Text
unfolding filename has_extension extension
stem p =
    if has_extension p
    then take (length (filename p) - suc (length (extension p))) (filename p)
    else filename p

unfoldable pub tolower : ℕ → ℕ
tolower c = if leb b'A' c && leb c b'Z' then c + 32 else c

unfoldable pub is_playlist_file : Text → Bool
unfolding has_extension extension tolower same
is_playlist_file p =
    has_extension p
    && (same (map tolower (extension p)) (codes "m3u")
        || same (map tolower (extension p)) (codes "m3u8"))

-- `line[0] != '#'`, where an empty line has a NUL there.
abbrev pub no_comment : Text → Bool
no_comment [] = true
no_comment (c ∷ line) = not (c == b'#')

-- The loop over the lines of a file; `exists` says which files do.
unfoldable pub read_tracks : (Text → Bool) → List Text → List Text
read_tracks exists [] = []
read_tracks exists (line ∷ rest) =
    let more = read_tracks exists rest in
    if no_comment line && exists line then line ∷ more else more

-- `playlist(path)`: the playlist, and the statements pushed. `contents` is what the file holds,
-- none where it cannot be opened. The extension that is tested again inside is one of the two that
-- `is_playlist_file` accepts. `source` and `current` are left as they were made.
unfoldable pub from_file : (Text → Bool) → Option Text → Text → Playlist × List Text
unfolding is_playlist_file read_tracks stem
from_file exists contents file =
    let tracks : List Text = elim contents [ none ↦ [] | some s ↦ read_tracks exists (lines s) ] in
    let made : Playlist × List Text = (
      record { name = stem file; source = []; current = none; tracks = tracks },
      add_to_playlist (stem file) tracks ++ insert_playlist (stem file) file,
    ) in
    if exists file && is_playlist_file file
    then made
    else (record { name = []; source = []; current = none; tracks = [] }, [])

-- `playlist(name)`
unfoldable pub from_name : Text → Playlist × List Text
from_name name =
    (record { name = name; source = []; current = none; tracks = [] }, add_to_playlist name [])

-- `playlist(name, tracks)`
unfoldable pub from_tracks : Text → List Text → Playlist
from_tracks name tracks = record { name = name; source = []; current = none; tracks = tracks }

-- The loop of `index_of`, at the index `i`.
unfoldable pub index_loop : Text → List Text → ℕ → ℕ
index_loop path [] i = 0
index_loop path (p ∷ ps) i =
    let rest = index_loop path ps (i + 1) in if same path p then i else rest

unfoldable pub index_of : Playlist → Text → ℕ
unfolding index_loop
index_of l path = index_loop path l.tracks 0

-- `none` is the read of the first element of an empty list.
unfoldable pub value_of : Playlist → ℕ → Option Text
value_of l i = if leb (length l.tracks) i then get_elem? l.tracks 0 else get_elem? l.tracks i

-- The loop of `insert_after`: each path, from the last one on, goes in front of the element that
-- `it` points to, behind those inserted before.
unfoldable pub emplace_all : List Text → List Text → List Text → List Text
emplace_all front [] back = front ++ back
emplace_all front (p ∷ backwards) back = emplace_all (front ++ p ∷ []) backwards back

-- The playlist, and the statements pushed.
unfoldable pub insert_after : Playlist → ℕ → List Text → Bool → Playlist × List Text
unfolding emplace_all
insert_after l curr paths save =
    let at = if ltb (length l.tracks) curr then length l.tracks else curr in
    let tracks = emplace_all (take at l.tracks) (reverse paths) (drop at l.tracks) in
    (
      record l { tracks = tracks },
      if save then remove_playlist l.name ++ add_to_playlist l.name tracks else [],
    )

-- The line that `export_playlist` writes for a song of the catalogue.
unfoldable pub export_info : Song → Text
export_info t =
    codes "#EXTINF:-1,"
    ++ ((if ltb 0 (length t.artist) then t.artist ++ codes " - " else [])
        ++ ((if ltb 0 (length t.album) then t.album ++ codes " - " else [])
            ++ ((if ltb 0 (length t.title) then t.title else []) ++ 10 ∷ [])))

-- The loop of `export_playlist`; `select_track` is the catalogue's answer.
unfoldable pub export_tracks : (Text → Song) → List Text → Text
unfolding export_info
export_tracks select_track [] = []
export_tracks select_track (p ∷ tracks) =
    (if (select_track p).found then export_info (select_track p) else [])
    ++ (p ++ (10 ∷ export_tracks select_track tracks))

-- What `export_playlist` writes to its file.
unfoldable pub export_playlist : (Text → Song) → Playlist → Text
unfolding export_tracks
export_playlist select_track l = codes "#EXTM3U" ++ export_tracks select_track l.tracks

-- ===== src/Playlist/Export.antt =====
-- What is read back from an exported playlist.
use sws.Base.{
  ◌≡◌, refl, ap, ◌∙◌, Bool, true, false, List, [], ◌∷◌, ◌++◌, if◌then◌else◌, ltb, length, arith,
  Text, Bool-cases, inl, inr, codes,
}
use mathlib.Core.List.{append_assoc}
use sws.Db.{Song}
use sws.Playlist.{Playlist, read_tracks, no_comment, export_info, export_tracks, export_playlist}
use sws.Playlist.Lines.{lines, lines-append, IsLine, IsLine-append}

-- The fields of a song that go into its line hold no newline.
pub record IsSingleLine (t : Song) : Type 0 where
  pub artist_line : IsLine t.artist
  pub album_line : IsLine t.album
  pub title_line : IsLine t.title

module _ (exists : Text → Bool) (select_track : Text → Song) where
  -- The path is one line that is no comment, and names a file.
  pub record CanExport (p : Text) : Type 0 where
    pub path_line : IsLine p
    pub path_comment : no_comment p ≡ true
    pub path_exists : exists p ≡ true
    pub info : IsSingleLine (select_track p)

  abbrev pub AllExport : List Text → Type 0
  AllExport [] = Unit
  AllExport (p ∷ ps) = CanExport p × AllExport ps

  -- The line of a song, without its '#' and its newline.
  abbrev info_line : Song → Text
  info_line t =
      codes "EXTINF:-1,"
      ++ ((if ltb 0 (length t.artist) then t.artist ++ codes " - " else [])
          ++ ((if ltb 0 (length t.album) then t.album ++ codes " - " else [])
              ++ (if ltb 0 (length t.title) then t.title else [])))

  export_info-info_line :
      (t : Song) (s : Text) → export_info t ++ s ≡ (b'#' ∷ info_line t) ++ 10 ∷ s
  unfolding export_info
  export_info-info_line t s = simp append_assoc

  optional-IsLine : (b : Bool) (s : Text) → IsLine s → IsLine (if b then s else [])
  optional-IsLine true s h = h
  optional-IsLine false s h = tt

  info_line-IsLine : (t : Song) → IsSingleLine t → IsLine (info_line t)
  info_line-IsLine t h = IsLine-append (codes "EXTINF:-1,") _ (omega arith) (
      IsLine-append (if ltb 0 (length t.artist) then t.artist ++ codes " - " else []) _
        (optional-IsLine (ltb 0 (length t.artist)) _
          (IsLine-append t.artist (codes " - ") h.artist_line (omega arith)))
        (IsLine-append (if ltb 0 (length t.album) then t.album ++ codes " - " else []) _
          (optional-IsLine (ltb 0 (length t.album)) _
            (IsLine-append t.album (codes " - ") h.album_line (omega arith)))
          (optional-IsLine (ltb 0 (length t.title)) t.title h.title_line)))

  read_path :
      (p s : Text)
      → CanExport p
      → read_tracks exists (lines (p ++ 10 ∷ s)) ≡ p ∷ read_tracks exists (lines s)
  unfolding read_tracks
  read_path p s h = rw (lines-append p s h.path_line, h.path_comment, h.path_exists)

  -- A line that begins with '#' is skipped.
  read_comment :
      (l s : Text)
      → IsLine l
      → read_tracks exists (lines ((b'#' ∷ l) ++ 10 ∷ s)) ≡ read_tracks exists (lines s)
  unfolding read_tracks
  read_comment l s h = rw (lines-append (b'#' ∷ l) s (omega arith, h))

  -- What is read from a text, as a function of it.
  abbrev read : Text → List Text
  read s = read_tracks exists (lines s)

  read_nil : read [] ≡ []
  unfolding read_tracks lines
  read_nil = refl

  -- The rest of an exported list, from the track `p` on, behind a text `l` that begins a comment.
  read_track :
      (p : Text) (ts : List Text)
      → CanExport p
      → read (export_tracks select_track ts) ≡ ts
      → read (export_tracks select_track (p ∷ ts)) ≡ p ∷ ts
  unfolding export_tracks
  read_track p ts c ih = elim (Bool-cases (select_track p).found) [
    | inl e ↦ rw e (
        ap read (export_info-info_line (select_track p) rest)
        ∙ read_comment (info_line (select_track p)) rest (info_line-IsLine (select_track p) c.info)
        ∙ read_path p (export_tracks select_track ts) c
        ∙ ap (λ xs. p ∷ xs) ih)
    | inr e ↦ rw e (read_path p (export_tracks select_track ts) c ∙ ap (λ xs. p ∷ xs) ih)
  ]
    where
      rest : Text
      rest = p ++ (10 ∷ export_tracks select_track ts)

  read-export_tracks : (ts : List Text) → AllExport ts → read (export_tracks select_track ts) ≡ ts
  read-export_tracks [] h = unfold export_tracks in read_nil
  read-export_tracks (p ∷ ts) h = read_track p ts h.0 (read-export_tracks ts h.1)

  -- The tracks that an exported playlist gives back: all, if the catalogue holds the first of them,
  -- and otherwise all but the first, whose path ends up on the line of "#EXTM3U".
  abbrev pub kept : List Text → List Text
  kept [] = []
  kept (p ∷ ts) = if (select_track p).found then p ∷ ts else ts

  read_header_nil : read (codes "#EXTM3U") ≡ []
  unfolding read_tracks lines
  read_header_nil = refl

  read_header :
      (ts : List Text)
      → AllExport ts
      → read (codes "#EXTM3U" ++ export_tracks select_track ts) ≡ kept ts
  unfolding export_tracks
  read_header [] h = read_header_nil
  read_header (p ∷ ts) h = elim (Bool-cases (select_track p).found) [
    | inl e ↦ rw e (
        ap (λ t. read (codes "#EXTM3U" ++ t)) (export_info-info_line (select_track p) rest)
        ∙ read_comment (codes "EXTM3U" ++ (b'#' ∷ line)) rest (
            IsLine-append (codes "EXTM3U") (b'#' ∷ line) (omega arith)
              (omega arith, info_line-IsLine (select_track p) h.0.info))
        ∙ read_path p (export_tracks select_track ts) h.0
        ∙ ap (λ xs. p ∷ xs) (read-export_tracks ts h.1))
    | inr e ↦ rw e (
        read_comment (codes "EXTM3U" ++ p) (export_tracks select_track ts)
          (IsLine-append (codes "EXTM3U") p (omega arith) h.0.path_line)
        ∙ read-export_tracks ts h.1)
  ]
    where
      line : Text
      line = info_line (select_track p)

      rest : Text
      rest = p ++ (10 ∷ export_tracks select_track ts)

  -- Reading an exported playlist gives its tracks back, but for the first one where the catalogue
  -- does not hold it: provided that the paths and the songs' fields hold no newline, and that the
  -- paths exist and do not begin with '#'.
  pub read-export_playlist :
      (l : Playlist)
      → AllExport l.tracks
      → read_tracks exists (lines (export_playlist select_track l)) ≡ kept l.tracks
  unfolding export_playlist
  read-export_playlist l h = read_header l.tracks h

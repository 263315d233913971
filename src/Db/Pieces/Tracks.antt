-- ===== src/Db/Pieces/Tracks.antt =====
-- What the statement of src/db.cpp that inserts a track carries.
use sws.Base.{◌≡◌, ap, ◌∙◌, some, List, [], ◌∷◌, ◌++◌, Text, decimal, arith, codes}
use mathlib.Core.List.{append_assoc}
use sws.Base.Texts.{to_string}
use sws.Db.{Song, escape_song, to_query_string, to_string_bool, to_string_double}
use sws.Db.Literal.{IsPlain, first}
use sws.Db.Statements.{insert_track}
use sws.Db.Pieces.{
  Piece, plain, quoted, render, literals, literals-render, IsPlain-append, escape-IsPlain,
  decimal-IsPlain, to_string-IsPlain, to_string_bool-IsPlain, to_string_double-IsPlain,
}

-- The parts of the statement of a track.
abbrev track_pieces : Song → List Piece
track_pieces s =
    plain (codes "INSERT INTO db_catalog VALUES(")
    ∷ quoted s.path
    ∷ plain (codes ", ")
    ∷ quoted s.title
    ∷ plain (codes ", " ++ (to_string s.track_no ++ codes ", "))
    ∷ quoted s.album
    ∷ plain (codes ", " ++ (decimal s.year ++ codes ", "))
    ∷ quoted s.artist
    ∷ plain (
        codes ", "
        ++ ((to_string_bool s.favorite ++ (codes ", " ++ to_string_double s.duration))
            ++ codes ", "))
    ∷ quoted s.spotify_id
    ∷ plain (codes ", ")
    ∷ quoted s.md5
    ∷ plain (codes ");")
    ∷ []

-- A number between commas.
listed_IsPlain : (x : Text) → IsPlain x → IsPlain (codes ", " ++ (x ++ codes ", "))
listed_IsPlain x h =
    IsPlain-append (codes ", ") (x ++ codes ", ") (omega arith)
      (IsPlain-append x (codes ", ") h (omega arith))

insert_track-render :
    (s : Song)
    → IsPlain s.spotify_id
    → IsPlain s.md5
    → first (insert_track s) ≡ render (track_pieces s)
unfolding insert_track to_query_string escape_song
insert_track-render s h k =
    rw (escape-IsPlain s.spotify_id h, escape-IsPlain s.md5 k) (simp append_assoc)

pub literals-insert_track :
    (s : Song)
    → IsPlain s.spotify_id
    → IsPlain s.md5
    → literals (first (insert_track s))
      ≡ some (s.path ∷ s.title ∷ s.album ∷ s.artist ∷ s.spotify_id ∷ s.md5 ∷ [])
literals-insert_track s h k =
    ap literals (insert_track-render s h k)
    ∙ literals-render (track_pieces s) (
      omega arith,
      (
        omega arith,
        (
          listed_IsPlain (to_string s.track_no) (to_string-IsPlain s.track_no),
          (
            listed_IsPlain (decimal s.year) (decimal-IsPlain s.year),
            (
              listed_IsPlain
                  (to_string_bool s.favorite ++ (codes ", " ++ to_string_double s.duration))
                  (IsPlain-append (to_string_bool s.favorite)
                    (codes ", " ++ to_string_double s.duration) (to_string_bool-IsPlain s.favorite)
                    (IsPlain-append (codes ", ") (to_string_double s.duration) (omega arith)
                      (to_string_double-IsPlain s.duration))),
              (omega arith, (omega arith, tt)),
            ),
          ),
        ),
      ),
    )

-- ===== src/Tests/Files.antt =====
-- A playlist that is exported, read back and edited.
use sws.Base.{
  none, ◌≡◌, refl, arith, Bool, true, false, [], ◌∷◌, ◌++◌, codes, Text, take, drop, reverse,
}
use sws.Base.Texts.{ℤ}
use sws.Db.{Song}
use sws.Playlist.{Playlist, read_tracks, no_comment, export_playlist, insert_after}
use sws.Playlist.Lines.{lines, IsLine}
use sws.Playlist.Export.{CanExport, AllExport, read-export_playlist}
use sws.Playlist.Edit.{insert_after-reverse}

abbrev two : Playlist
two = record {
  name = codes "two";
  source = [];
  current = none;
  tracks = codes "/a" ∷ codes "/b" ∷ [];
}

abbrev exists : Text → Bool
exists path = true

-- A catalogue that holds no track.
abbrev catalogue : Text → Song
catalogue path = record {
  path = path;
  title = [];
  track_no = ℤ.pos 0;
  album = [];
  year = 0;
  artist = [];
  favorite = false;
  spotify_id = [];
  rating = 0;
  duration = 0;
  md5 = [];
  found = false;
}

can_export : (p : Text) → IsLine p → no_comment p ≡ true → CanExport exists catalogue p
can_export p l c = record {
  path_line = l;
  path_comment = c;
  path_exists = refl;
  info = record { artist_line = tt; album_line = tt; title_line = tt };
}

two-AllExport : AllExport exists catalogue two.tracks
two-AllExport =
    (can_export (codes "/a") (omega arith) refl, (can_export (codes "/b") (omega arith) refl, tt))

read-export_playlist_example :
    read_tracks exists (lines (export_playlist catalogue two)) ≡ codes "/b" ∷ []
read-export_playlist_example = read-export_playlist exists catalogue two two-AllExport

insert_after-reverse_example :
    (insert_after two 1 (codes "/x" ∷ codes "/y" ∷ []) true).0.tracks
    ≡ take 1 two.tracks ++ (reverse (codes "/x" ∷ codes "/y" ∷ []) ++ drop 1 two.tracks)
insert_after-reverse_example = insert_after-reverse two 1 (codes "/x" ∷ codes "/y" ∷ []) true

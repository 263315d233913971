-- ===== src/Tests/Startups.antt =====
-- A player that is started, statements with several literals, and the length of a text.
use sws.Base.{
  ◌≡◌, refl, arith, true, false, Option, some, none, [], ◌∷◌, List, codes, Text, map, length, ◌<◌,
}
use sws.Base.Texts.{ℤ}
use sws.Db.{Song}
use sws.Db.Statements.{add_to_playlist}
use sws.Db.Pieces.{literals}
use sws.Db.Pieces.Carries.{literals-add_to_playlist}
use sws.Player.{Player}
use sws.Player.Startup.{Outside, DirectoryEntry, Library, populate, holds}
use sws.Player.Startup.Gathered.{unique, populate-catalog}
use sws.Player.Startup.Resumes.{Resumes}
use sws.Playlist.{Playlist}
use sws.Tests.Players.{unknown}
use sws.Utility.{utf8_leng}
use sws.Utility.Utf8.{encode_all, utf8_leng-encode_all}

-- A directory with a track, beside the two that the database knows.
abbrev pub entries : List DirectoryEntry
entries = record { path = codes "/m/n.mp3"; is_regular_file = true; mime = codes "audio/mpeg" } ∷ []

abbrev pub outside : Outside
outside = record {
  tables = [] ∷ (codes "db_catalog" ∷ []) ∷ [];
  select_playlist = λ s. codes "/m/a.mp3" ∷ codes "/m/b.mp3" ∷ [];
  select_after = λ s. codes "/m/a.mp3" ∷ codes "/m/b.mp3" ∷ [];
  entries = entries;
  file_exists = λ s. true;
  file_contents = λ s. none;
  queue_empty = false ∷ true ∷ [];
  current_playlist = codes "db_catalog";
  current = λ s. ℤ.pos 1;
}

abbrev pub library : Library
library = record { playlists = []; catalog = codes "/m/a.mp3" ∷ []; effects = [] }

populate-catalog_example :
    (unique (populate (λ s. true) (λ s. none) entries library).catalog ≡ true)
    × (holds (codes "/m/n.mp3") (populate (λ s. true) (λ s. none) entries library).catalog ≡ true)
unfolding holds sws.Base.same sws.Playlist.is_playlist_file sws.Track.is_audio_mime
populate-catalog_example =
    populate-catalog (λ s. true) (λ s. none) entries library (codes "/m/n.mp3") refl

abbrev titled : Song
titled = record unknown { path = codes "/m/it's.mp3"; title = codes "It's"; md5 = codes "d41d8" }

literals-add_to_playlist_example :
    map literals (add_to_playlist (codes "long") (codes "a'b" ∷ codes "c" ∷ []))
    ≡ some [] ∷ some (codes "a'b" ∷ codes "c" ∷ []) ∷ []
literals-add_to_playlist_example =
    literals-add_to_playlist (codes "long") (codes "a'b") (codes "c" ∷ []) (omega arith)

-- One, two, three and four bytes.
utf8_leng-encode_all_example : utf8_leng (encode_all (0x41 ∷ 0xe9 ∷ 0x20ac ∷ 0x1f600 ∷ [])) ≡ 4
utf8_leng-encode_all_example =
    utf8_leng-encode_all (0x41 ∷ 0xe9 ∷ 0x20ac ∷ 0x1f600 ∷ []) (omega arith)

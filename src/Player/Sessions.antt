-- ===== src/Player/Sessions.antt =====
-- What src/player.cpp pushes in one run and reads in the next: the position in a playlist, by the table
-- `_playlist` of the database.
--
-- SQLite is a parameter, with what the program relies on for that table.
pub mod Position
pub mod Resume
use sws.Base.{
  ℕ, ◌<◌, ◌^◌, ◌≡◌, Option, none, some, List, [], ◌∷◌, ◌++◌, if◌then◌else◌, Text, ℤ, same,
}
use sws.Base.Texts.{ℤ}
use sws.Db.{Song}
use sws.Db.Literal.{IsPlain, first}
use sws.Db.Statements.{set_playlist_current, insert_path, insert_track, update_path_duration}
use sws.Db.Reads.{Reply, Row, rows, current_query}
use sws.Track
use sws.Player.{Effect, push, track_effect}

-- The value where there is one already, as an UPDATE of a row.
abbrev pub overwrite : ℤ → Option ℤ → Option ℤ
overwrite z none = none
overwrite z (some y) = some z

-- `current` is the column of that name in the row of `_playlist` whose name is given. An UPDATE changes
-- rows that there are; the statements of the catalogue leave the table alone, where their literals
-- end where they should. A number of 31 bits is read as it is.
pub record Sqlite (Db : Type 0) : Type 0 where
  pub exec : Text → Db → Db
  pub reply : Text → Db → Reply
  pub current : Db → Text → Option ℤ
  pub update :
      (n : Text) (z : ℤ) (d : Db) (m : Text)
      → current (exec (first (set_playlist_current n z)) d) m
        ≡ (if same n m then overwrite z (current d m) else current d m)
  pub path_inserted :
      (p : Text) (d : Db) (m : Text) → current (exec (first (insert_path p)) d) m ≡ current d m
  pub track_inserted :
      (s : Song) (d : Db) (m : Text)
      → IsPlain s.spotify_id
      → IsPlain s.md5
      → current (exec (first (insert_track s)) d) m ≡ current d m
  pub duration_updated :
      (p : Text) (n : ℕ) (d : Db) (m : Text)
      → current (exec (first (update_path_duration p n)) d) m ≡ current d m
  pub row_missing : (n : Text) (d : Db) → current d n ≡ none → reply (current_query n) d ≡ rows []
  pub row_read :
      (n : Text) (d : Db) (k : ℕ)
      → current d n ≡ some (ℤ.pos k)
      → k < 2 ^ 31
      → (r : Row) × (reply (current_query n) d ≡ rows (r ∷ [])) × (r.column_int 0 ≡ ℤ.pos k)

-- The database executes the statements in the order in which they are pushed.
module _ {Db : Type 0} (S : Sqlite Db) where
  abbrev pub executed : List Effect → Db → Db
  executed [] d = d
  executed (push q ∷ es) d = executed es (S.exec q d)
  executed (track_effect (Track.push q) ∷ es) d = executed es (S.exec q d)
  executed (e ∷ es) d = executed es d

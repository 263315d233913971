-- ===== src/Tests/Databases.antt =====
-- Statements and the queue of statements.
use sws.Base.{◌≡◌, refl, arith, true, false, some, [], ◌∷◌, ◌++◌, codes, Text}
use sws.Base.Texts.{ℤ}
use sws.Db.{Song}
use sws.Db.Statements.{insert_path, remove_track, remove_path_from_playlist, insert_influence}
use sws.Db.Literal.{read_literal, after, first, statements-path}
use sws.Db.Select.{select_query}
use sws.Db.Conditions.{conditions, query_for, select_query-conditions}
use sws.Db.Defects.{insert_influence-cut}
use sws.Db.Queue.{Db, initial, Reach, here, next, push, push_store, take, execute}
use sws.Db.Queue.Order.{IsOrdered, queue-IsOrdered}
use sws.Db.Queue.Flag.{IsIdle, queue_empty-stale}

abbrev song : Song
song = record {
  path = codes "/m/it's.mp3";
  title = codes "It's";
  track_no = ℤ.pos 7;
  album = codes "A";
  year = 1999;
  artist = [];
  favorite = false;
  spotify_id = [];
  rating = 0;
  duration = 0;
  md5 = [];
  found = true;
}

statements-path_example :
    (read_literal false
        (after (codes "INSERT INTO db_catalog (path) VALUES('") (first (insert_path song.path)))
      ≡ some (song.path, codes ");"))
    × (read_literal false
          (after (codes "DELETE FROM db_catalog WHERE path='") (first (remove_track song.path)))
        ≡ some (song.path, codes ";"))
    × (read_literal false (
          after
            (codes "DELETE FROM [" ++ (codes "long" ++ codes "] WHERE path='"))
            (first (remove_path_from_playlist (codes "long") song.path)))
        ≡ some (song.path, codes ";"))
statements-path_example = statements-path (codes "long") song.path

select_query-conditions_example : select_query true song ≡ query_for (conditions true song)
select_query-conditions_example = select_query-conditions true song

insert_influence-cut_example :
    (tail : Text) × (read_literal false (
        after
          (codes "REPLACE INTO _influences VALUES('")
          (first (insert_influence (codes "O" ++ (b'\'' ∷ codes "Jays")) (codes "B"))))
      ≡ some (codes "O", codes "Jays" ++ tail))
insert_influence-cut_example =
    insert_influence-cut (codes "O") (codes "Jays") (codes "B") (omega arith, tt) (omega arith)
      (λ e. ground arith)

abbrev running : Db
running = record initial {
  queries = codes "B" ∷ [];
  monitor = sws.Db.Queue.executing (codes "A");
  pushing = 1;
  queue_empty = false;
  pushed = codes "A" ∷ codes "B" ∷ [];
}

running-Reach : Reach initial running
unfolding initial
running-Reach =
    next (next (next (next here (push (codes "A"))) (push_store 0 refl)) (push (codes "B")))
      (take (codes "A") (codes "B" ∷ []) refl refl)

queue-IsOrdered_example : IsOrdered running
queue-IsOrdered_example = queue-IsOrdered running-Reach

queue_empty-stale_example :
    (s : Db) × Reach initial s × IsIdle s × (s.pushed ≡ codes "A" ∷ []) × (s.queue_empty ≡ false)
queue_empty-stale_example = queue_empty-stale (codes "A")

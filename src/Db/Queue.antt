-- ===== src/Db/Queue.antt =====
-- src/db.cpp, `push`, `monitor` and `empty_queue`: the queue of statements between the program's
-- threads and the one that runs them. A step is what a thread does between two points where others
-- can run: the mutex guards `queries`, and nothing guards `queue_empty`.
pub mod Order
pub mod Flag
use sws.Base.{ℕ, suc, Bool, true, false, List, [], ◌∷◌, ◌++◌, ◌≡◌, Text}

-- Where the monitor thread is.
pub data Monitor : Type 0 where
  -- in `cv.wait`
  waiting : Monitor
  -- between `lock.unlock()` and the return of `sqlite3_exec`
  executing : Text → Monitor
  -- before the test `queries.size() == 0`
  testing : Monitor
  -- between this test and the assignment to `queue_empty`
  storing : Bool → Monitor

pub record Db : Type 0 where
  pub queries : List Text
  pub queue_empty : Bool
  pub monitor : Monitor
  -- the calls of `push` that have not yet stored `queue_empty = false`
  pub pushing : ℕ
  -- what was pushed, and what was handed to `sqlite3_exec`, in order
  pub pushed : List Text
  pub executed : List Text

-- The constructor, before its own statements are pushed.
unfoldable pub initial : Db
initial = record {
  queries = [];
  queue_empty = true;
  monitor = waiting;
  pushing = 0;
  pushed = [];
  executed = [];
}

abbrev pub is_empty : List Text → Bool
is_empty [] = true
is_empty (q ∷ qs) = false

pub data Step (s : Db) : Db → Type 0 where
  -- `push`, under the lock
  push :
      (q : Text)
      → Step s (record s {
        queries = s.queries ++ (q ∷ []);
        pushing = suc s.pushing;
        pushed = s.pushed ++ (q ∷ []);
      })
  -- `push`, after it
  push_store : (n : ℕ) → s.pushing ≡ suc n → Step s (record s { queue_empty = false; pushing = n })
  take :
      (q : Text) (rest : List Text)
      → s.monitor ≡ waiting
      → s.queries ≡ q ∷ rest
      → Step s (record s { queries = rest; monitor = executing q })
  execute :
      (q : Text)
      → s.monitor ≡ executing q
      → Step s (record s { monitor = testing; executed = s.executed ++ (q ∷ []) })
  test : s.monitor ≡ testing → Step s (record s { monitor = storing (is_empty s.queries) })
  store :
      (b : Bool) → s.monitor ≡ storing b → Step s (record s { queue_empty = b; monitor = waiting })

pub data Reach (s : Db) : Db → Type 0 where
  here : Reach s s
  next : {t u : Db} → Reach s t → Step t u → Reach s u

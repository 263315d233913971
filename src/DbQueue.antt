-- ===== src/DbQueue.antt =====
-- src/db_queue.cpp: a queue with the thread that works it off, for songs (`push_song` and
-- `monitor_update`) as for durations (`push_duration` and `monitor_duration`). A step is what a thread
-- does between two points where another can run. What is queued is named by a number.
--
-- The worker holds the mutex from its start on, but for the waits of `cv.wait` and for the time in which
-- it writes to the database. The condition variable serves both queues, and a wait may end without a
-- notification: `wake` is a step of its own. `monitor` is true from the constructor on, until the
-- player's `populate` makes it false.
pub mod Order
pub mod Stuck
use sws.Base.{Bool, true, false, List, [], ◌∷◌, ◌++◌, ◌≡◌, ◌⊎◌, ℕ}

-- Who holds the mutex of the queue.
pub data Holder : Type 0 where
  nobody worker pusher : Holder

-- Where the worker is.
pub data Worker : Type 0 where
  -- without the mutex, which it asks for: at its start, and when a wait or a write has ended
  locking : Worker
  -- with the mutex, in front of the test of `cv.wait`
  looping : Worker
  -- in `cv.wait`, without the mutex
  waiting : Worker
  -- with the mutex, behind `cv.wait`
  awake : Worker
  -- in the call of `_db`, without the mutex
  writing : ℕ → Worker

pub record DbQueue : Type 0 where
  pub queue : List ℕ
  pub holder : Holder
  pub worker_at : Worker
  pub monitor : Bool
  -- what was pushed, and what was written to the database, in order
  pub pushed : List ℕ
  pub written : List ℕ

unfoldable pub initial : DbQueue
initial = record {
  queue = [];
  holder = nobody;
  worker_at = locking;
  monitor = true;
  pushed = [];
  written = [];
}

pub data Step (s : DbQueue) : DbQueue → Type 0 where
  -- a caller of `push` gets the mutex
  lock : s.holder ≡ nobody → Step s (record s { holder = pusher })
  -- it pushes and unlocks
  push :
      (x : ℕ)
      → s.holder ≡ pusher
      → Step s
          (record s { queue = s.queue ++ (x ∷ []); holder = nobody; pushed = s.pushed ++ (x ∷ []) })
  -- the wait ends, with a notification or without one
  wake : s.worker_at ≡ waiting → Step s (record s { worker_at = locking })
  relock :
      s.worker_at ≡ locking
      → s.holder ≡ nobody
      → Step s (record s { worker_at = looping; holder = worker })
  -- the test of `cv.wait` fails
  wait :
      s.worker_at ≡ looping
      → s.queue ≡ []
      → s.monitor ≡ true
      → Step s (record s { worker_at = waiting; holder = nobody })
  -- it succeeds; where `monitor` is false the loops of both workers come back to it at once
  ready :
      s.worker_at ≡ looping
      → (s.queue ≡ [] → s.monitor ≡ false)
      → Step s (record s { worker_at = awake })
  take :
      (x : ℕ) (rest : List ℕ)
      → s.worker_at ≡ awake
      → s.monitor ≡ true
      → s.queue ≡ x ∷ rest
      → Step s (record s { queue = rest; worker_at = writing x; holder = nobody })
  skip :
      s.worker_at ≡ awake
      → (s.monitor ≡ false) ⊎ (s.queue ≡ [])
      → Step s (record s { worker_at = looping })
  write :
      (x : ℕ)
      → s.worker_at ≡ writing x
      → Step s (record s { worker_at = locking; written = s.written ++ (x ∷ []) })
  -- `populate`, or the destructor
  monitor_off : Step s (record s { monitor = false })

pub data Reach (s : DbQueue) : DbQueue → Type 0 where
  here : Reach s s
  next : {t u : DbQueue} → Reach s t → Step t u → Reach s u

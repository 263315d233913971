-- ===== src/DbQueue/Order.antt =====
-- What the worker writes, and who holds the mutex.
use sws.Base.{◌≡◌, ◌≢◌, refl, List, [], ◌∷◌, ◌++◌, ℕ, arith}
use mathlib.Core.List.{append_assoc}
use sws.DbQueue.{
  DbQueue, Holder, nobody, worker, pusher, Worker, locking, looping, waiting, awake, writing, Step,
  lock, push, wake, relock, wait, ready, take, skip, write, monitor_off, Reach, here, next, initial,
}

-- What was taken from the queue and is not yet written.
abbrev pub in_flight : Worker → List ℕ
in_flight locking = []
in_flight looping = []
in_flight waiting = []
in_flight awake = []
in_flight (writing x) = x ∷ []

-- The worker holds the mutex exactly where it reads the queue.
abbrev pub Holds : Worker → Holder → Type 0
Holds locking h = h ≢ worker
Holds looping h = h ≡ worker
Holds waiting h = h ≢ worker
Holds awake h = h ≡ worker
Holds (writing x) h = h ≢ worker

pub record IsConsistent (s : DbQueue) : Type 0 where
  pub order : s.written ++ (in_flight s.worker_at ++ s.queue) ≡ s.pushed
  pub mutex : Holds s.worker_at s.holder

-- A caller of `push` takes the mutex, or gives it back, only where the worker does not hold it.
Holds-free : (w : Worker) (h k : Holder) → h ≢ worker → k ≢ worker → Holds w h → Holds w k
Holds-free locking h k f g v = g
Holds-free looping h k f g v = absurd (f v)
Holds-free waiting h k f g v = g
Holds-free awake h k f g v = absurd (f v)
Holds-free (writing x) h k f g v = g

Step-IsConsistent : {s t : DbQueue} → Step s t → IsConsistent s → IsConsistent t
Step-IsConsistent {s} (lock e) v = record {
  order = v.order;
  mutex = Holds-free s.worker_at s.holder pusher (ground arith) (ground arith) v.mutex;
}
Step-IsConsistent {s} (push x e) v = record {
  order = rw (← v.order) (simp append_assoc);
  mutex = Holds-free s.worker_at s.holder nobody (ground arith) (ground arith) v.mutex;
}
Step-IsConsistent {s} (wake e) v = ground arith
Step-IsConsistent {s} (relock e f) v = ground arith
Step-IsConsistent {s} (wait e f g) v = ground arith
Step-IsConsistent {s} (ready e f) v = ground arith
Step-IsConsistent {s} (take x rest e f g) v = ground arith
Step-IsConsistent {s} (skip e f) v = ground arith
Step-IsConsistent {s} (write x e) v = ground (arith, append_assoc s.written (x ∷ []) s.queue)
Step-IsConsistent {s} monitor_off v = ground arith

-- In every state that the callers and the worker reach, what was written, what is being written and
-- what waits are the pushed ones in their order, and the worker holds the mutex exactly where it reads
-- the queue.
pub Reach-IsConsistent : {s : DbQueue} → Reach initial s → IsConsistent s
unfolding initial
Reach-IsConsistent here = record { order = refl; mutex = ground arith }
Reach-IsConsistent (next r st) = Step-IsConsistent st (Reach-IsConsistent r)

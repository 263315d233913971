-- ===== src/Db/Queue/Order.antt =====
-- The statements run in the order in which they were pushed.
use sws.Base.{◌≡◌, refl, List, [], ◌∷◌, ◌++◌, Text, arith}
use mathlib.Core.List.{append_assoc}
use sws.Db.Queue.{
  Db, Monitor, waiting, executing, testing, storing, Step, push, push_store, take, execute, test,
  store, Reach, here, next, initial,
}

-- The statement that the monitor has taken and not yet run.
abbrev pub in_flight : Monitor → List Text
in_flight waiting = []
in_flight (executing q) = q ∷ []
in_flight testing = []
in_flight (storing b) = []

-- What has run, what is running and what waits is what was pushed, in this order.
abbrev pub IsOrdered : Db → Type 0
IsOrdered s = s.executed ++ (in_flight s.monitor ++ s.queries) ≡ s.pushed

Step-IsOrdered : {s t : Db} → Step s t → IsOrdered s → IsOrdered t
Step-IsOrdered {s} (push q) h = rw (← h) (simp append_assoc)
Step-IsOrdered {s} (push_store n p) h = h
Step-IsOrdered {s} (take q rest m e) h = ground arith
Step-IsOrdered {s} (execute q m) h = ground (arith, append_assoc s.executed (q ∷ []) s.queries)
Step-IsOrdered {s} (test m) h = ground arith
Step-IsOrdered {s} (store b m) h = ground arith

-- However the threads are interleaved, no statement is lost, doubled or overtaken: those that have
-- run, the one that is running and those that wait make up the pushed ones in their order.
pub queue-IsOrdered : {s : Db} → Reach initial s → IsOrdered s
unfolding initial
queue-IsOrdered here = refl
queue-IsOrdered (next r st) = Step-IsOrdered st (queue-IsOrdered r)

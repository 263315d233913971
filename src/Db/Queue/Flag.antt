-- ===== src/Db/Queue/Flag.antt =====
-- What `queue_empty` can say while the threads run.
use sws.Base.{zero, ◌≡◌, refl, true, false, [], ◌∷◌, ◌++◌, Text, arith}
use sws.Db.Queue.{
  Db, waiting, Step, push, push_store, take, execute, test, store, Reach, here, next, initial,
}

-- Nothing waits, nothing runs, and no call of `push` is under way.
pub record IsIdle (s : Db) : Type 0 where
  pub no_queries : s.queries ≡ []
  pub no_monitor : s.monitor ≡ waiting
  pub no_push : s.pushing ≡ zero

-- In an idle state the only step is a new push.
pub IsIdle-Step : {s t : Db} → IsIdle s → Step s t → (q : Text) × (t.pushed ≡ s.pushed ++ q ∷ [])
IsIdle-Step i (push q) = (q, refl)
IsIdle-Step i (push_store n p) = absurd (ground arith)
IsIdle-Step i (take q rest m e) = absurd (ground arith)
IsIdle-Step i (execute q m) = absurd (ground arith)
IsIdle-Step i (test m) = absurd (ground arith)
IsIdle-Step i (store b m) = absurd (ground arith)

-- A single push can leave the queue idle with `queue_empty` false, for good: the monitor runs the
-- statement and stores true before the pusher stores false. A thread that waits for `empty_queue`
-- then waits for a push that need not come.
pub queue_empty-stale :
    (q : Text)
    → (s : Db) × Reach initial s × IsIdle s × (s.pushed ≡ q ∷ []) × (s.queue_empty ≡ false)
unfolding initial
queue_empty-stale q = (
  _,
  next
      (next
        (next (next (next (next here (push q)) (take q [] refl refl)) (execute q refl)) (test refl))
        (store true refl))
      (push_store zero refl),
  record { no_queries = refl; no_monitor = refl; no_push = refl },
  refl,
  refl,
)

-- The flag can also be true while a statement waits: the push falls between the monitor's test and
-- its store.
pub queue_empty-early :
    (p q : Text) → (s : Db) × Reach initial s × (s.queue_empty ≡ true) × (s.queries ≡ q ∷ [])
unfolding initial
queue_empty-early p q = (
  _,
  next
      (next
        (next
          (next
            (next (next (next (next here (push p)) (push_store zero refl)) (take p [] refl refl))
              (execute p refl))
            (test refl))
          (push q))
        (push_store zero refl))
      (store true refl),
  refl,
  refl,
)

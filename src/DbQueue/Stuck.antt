-- ===== src/DbQueue/Stuck.antt =====
-- What is left of the queue once `monitor` is false.
use sws.Base.{◌≡◌, ◌⊎◌, inl, inr, refl, false, [], ◌∷◌, ℕ, arith}
use sws.DbQueue.{
  DbQueue, worker, looping, awake, Step, lock, push, wake, relock, wait, ready, take, skip, write,
  monitor_off, Reach, here, next, initial,
}

-- The worker runs with the mutex, and `monitor` is false.
pub record IsStuck (s : DbQueue) : Type 0 where
  pub off : s.monitor ≡ false
  pub held : s.holder ≡ worker
  pub spins : (s.worker_at ≡ looping) ⊎ (s.worker_at ≡ awake)

-- What a stuck queue keeps.
pub record Kept (s t : DbQueue) : Type 0 where
  pub stuck : IsStuck t
  pub queue : t.queue ≡ s.queue
  pub pushed : t.pushed ≡ s.pushed
  pub written : t.written ≡ s.written

Step-Kept : {s t u : DbQueue} → Step t u → Kept s t → Kept s u
Step-Kept (lock e) k = absurd (ground (arith, k.stuck.held))
Step-Kept (push x e) k = absurd (ground (arith, k.stuck.held))
Step-Kept (wake e) k = absurd (ground (arith, k.stuck.spins))
Step-Kept (relock e f) k = absurd (ground (arith, k.stuck.held))
Step-Kept (wait e f g) k = absurd (ground (arith, k.stuck.off))
Step-Kept (ready e f) k = record {
  stuck = record { off = k.stuck.off; held = k.stuck.held; spins = inr refl };
  queue = k.queue;
  pushed = k.pushed;
  written = k.written;
}
Step-Kept (take x rest e f g) k = absurd (ground (arith, k.stuck.off))
Step-Kept (skip e f) k = record {
  stuck = record { off = k.stuck.off; held = k.stuck.held; spins = inl refl };
  queue = k.queue;
  pushed = k.pushed;
  written = k.written;
}
Step-Kept (write x e) k = absurd (ground (arith, k.stuck.spins))
Step-Kept monitor_off k = record {
  stuck = record { off = refl; held = k.stuck.held; spins = k.stuck.spins };
  queue = k.queue;
  pushed = k.pushed;
  written = k.written;
}

-- A worker that runs with the mutex while `monitor` is false never gives it back: whatever happens
-- from there on, no caller of `push` gets it, and nothing is pushed or written.
pub Reach-Kept : {s t : DbQueue} → IsStuck s → Reach s t → Kept s t
Reach-Kept i here = record { stuck = i; queue = refl; pushed = refl; written = refl }
Reach-Kept i (next r st) = Step-Kept st (Reach-Kept i r)

-- After a push that `populate` has preceded.
abbrev pub after_push : ℕ → DbQueue
after_push x = record {
  queue = x ∷ [];
  holder = worker;
  worker_at = looping;
  monitor = false;
  pushed = x ∷ [];
  written = [];
}

after_push-Reach : (x : ℕ) → Reach initial (after_push x)
unfolding initial
after_push-Reach x =
    next
      (next
        (next
          (next (next (next (next here (relock refl refl)) (wait refl refl refl)) monitor_off)
            (lock refl))
          (push x refl))
        (wake refl))
      (relock refl refl)

-- After `populate` has made `monitor` false, a single push brings the queue to a state from where what
-- was pushed is never written, whatever happens, and no later push gets the mutex.
pub push-never_written :
    (x : ℕ) {t : DbQueue}
    → Reach (after_push x) t
    → Reach initial (after_push x) × (t.holder ≡ worker) × (t.queue ≡ x ∷ []) × (t.written ≡ [])
push-never_written x r =
    let k = Reach-Kept (record { off = refl; held = refl; spins = inl refl }) r in
    (after_push-Reach x, k.stuck.held, k.queue, k.written)

-- ===== src/Tests/Threads.antt =====
-- The queue of songs and the clients' threads.
use sws.Base.{◌≡◌, refl, false, [], ◌∷◌, inl}
use sws.DbQueue.{worker, Reach, here, next, initial, ready, skip}
use sws.DbQueue.Order.{IsConsistent, Reach-IsConsistent}
use sws.DbQueue.Stuck.{after_push, push-never_written}
use sws.Control.Handlers
use sws.Control.Handlers.{Clients, testing}
use sws.Control.Handlers.Updates.{IsBounded, Reach-IsBounded, player_update-missed}

-- The worker goes round once.
abbrev round : Reach (after_push 7) (after_push 7)
round = next (next here (ready refl (λ e. refl))) (skip refl (inl refl))

push-never_written_example :
    Reach initial (after_push 7)
    × ((after_push 7).holder ≡ worker)
    × ((after_push 7).queue ≡ 7 ∷ [])
    × ((after_push 7).written ≡ [])
push-never_written_example = push-never_written 7 round

Reach-IsConsistent_example : IsConsistent (after_push 7)
Reach-IsConsistent_example = Reach-IsConsistent (push-never_written 7 round).0

-- A change, a client that is told of it, and another one.
abbrev one_client : Clients
one_client = record {
  update = false;
  handlers = record { phase = testing; sends = 0 } ∷ [];
  changes = 0;
}

one_client-Reach : Handlers.Reach Handlers.initial one_client
unfolding Handlers.initial
one_client-Reach = Handlers.next Handlers.here Handlers.on_open

Reach-IsBounded_example : IsBounded one_client
Reach-IsBounded_example = Reach-IsBounded one_client-Reach

player_update-missed_example :
    (t : Clients) × Handlers.Reach one_client t
    × (t.changes ≡ 1)
    × (t.update ≡ false)
    × (t.handlers ≡ record { phase = testing; sends = 1 } ∷ [])
player_update-missed_example = player_update-missed one_client [] [] 0 refl refl

-- ===== src/Control/Handlers.antt =====
-- src/wsocket.cpp: the threads that send the player's state to the clients. `player_update` makes the
-- one flag `update` true; every client that opened a connection has a thread of `player_handler`, which
-- tests the flag without end, sends, and makes it false. A step is one access of the flag, or one send.
pub mod Updates
use sws.Base.{ℕ, zero, suc, Bool, true, false, List, [], ◌∷◌, ◌++◌, ◌≡◌}

-- Where a thread of `player_handler` is: in front of the test, in front of the send, or behind it.
pub data Phase : Type 0 where
  testing sending clearing : Phase

pub record Handler : Type 0 where
  pub phase : Phase
  -- how often it sent, with success or not
  pub sends : ℕ

pub record Clients : Type 0 where
  pub update : Bool
  pub handlers : List Handler
  -- how often the player told of a change
  pub changes : ℕ

-- After the constructor.
unfoldable pub initial : Clients
initial = record { update = false; handlers = []; changes = 0 }

pub data Step (s : Clients) : Clients → Type 0 where
  player_update : Step s (record s { update = true; changes = suc s.changes })
  on_open :
      Step s (record s { handlers = s.handlers ++ (record { phase = testing; sends = 0 } ∷ []) })
  -- it takes the connection from a set into which none was ever put; the thread goes on
  on_close : Step s s
  see :
      (before after : List Handler) (n : ℕ)
      → s.handlers ≡ before ++ (record { phase = testing; sends = n } ∷ after)
      → s.update ≡ true
      → Step s (record s { handlers = before ++ (record { phase = sending; sends = n } ∷ after) })
  send :
      (before after : List Handler) (n : ℕ)
      → s.handlers ≡ before ++ (record { phase = sending; sends = n } ∷ after)
      → Step s
          (record s { handlers = before ++ (record { phase = clearing; sends = suc n } ∷ after) })
  clear :
      (before after : List Handler) (n : ℕ)
      → s.handlers ≡ before ++ (record { phase = clearing; sends = n } ∷ after)
      → Step s (record s {
        update = false;
        handlers = before ++ (record { phase = testing; sends = n } ∷ after);
      })

pub data Reach (s : Clients) : Clients → Type 0 where
  here : Reach s s
  next : {t u : Clients} → Reach s t → Step t u → Reach s u

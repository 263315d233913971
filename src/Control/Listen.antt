-- ===== src/Control/Listen.antt =====
-- src/wsocket.cpp, the loop of the constructor: the server tries again until it can listen on its port.
use sws.Base.{ℕ, zero, suc, ◌+◌, ◌*◌, ◌≡◌, ◌∙◌, ap, List, [], ◌∷◌, ◌++◌, replicate, arith}

-- What `listen(9002)` does: it listens, or throws an exception of websocketpp, or another one.
pub data Attempt : Type 0 where
  listened refused failed : Attempt

-- The server after some attempts: it tries still, it listens, or the exception has left the constructor;
-- and the seconds that it slept.
pub data Server : Type 0 where
  trying listening gone : ℕ → Server

unfoldable pub listen : ℕ → List Attempt → Server
listen slept [] = trying slept
listen slept (listened ∷ attempts) = listening slept
listen slept (refused ∷ attempts) = listen (slept + 3) attempts
listen slept (failed ∷ attempts) = gone slept

-- After any number of refusals the server listens as soon as it can, having slept three seconds for each.
listen-refused :
    (n slept : ℕ) (attempts : List Attempt)
    → listen slept (replicate n refused ++ listened ∷ attempts) ≡ listening (slept + n * 3)
unfolding listen
listen-refused zero slept attempts = ap listening (omega arith)
listen-refused (suc n) slept attempts =
    listen-refused n (slept + 3) attempts ∙ ap listening (omega arith)

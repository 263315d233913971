-- ===== src/Control/Watch.antt =====
-- How long the player follows the ends of tracks.
use sws.Base.{◌≡◌, refl, true, false, some, Text, arith}
use sws.Track.{File}
use sws.Player.{Player, next}
use sws.Control.{BusMessage, eos, bus_delivers, on_bus_message}

-- The first end of a track moves the player on, and is the last one that does: the watch is removed,
-- and no later message of the bus has an effect.
pub bus_delivers-once :
    (world : Text → File) (p q : Player) (m : BusMessage)
    → p.bus_watch ≡ true
    → next world p ≡ some q
    → (bus_delivers world p eos ≡ some (record q { bus_watch = false }))
      × (bus_delivers world (record q { bus_watch = false }) m
          ≡ some (record q { bus_watch = false }))
unfolding bus_delivers on_bus_message
bus_delivers-once world p q m w h = (ground arith, refl)

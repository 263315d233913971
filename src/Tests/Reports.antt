-- ===== src/Tests/Reports.antt =====
-- What is told of the player, and a client's message.
use sws.Base.{◌≡◌, refl, arith, some, none, [], ◌∷◌, ◌++◌, List}
use sws.Db.Statements.{update_path_duration}
use sws.Player.{statements}
use sws.Player.Reports.{Clock, main_rounds}
use sws.Player.Reports.Rounds.{lines, main_rounds-nanoseconds}
use sws.Tests.Players.{second}

-- Three minutes and 20 seconds, asked twice.
abbrev clocks : List Clock
clocks =
    record { query_position = none; query_duration = some 200000000000 }
    ∷ record { query_position = some 5000000000; query_duration = some 200000000000 }
    ∷ []

main_rounds-nanoseconds_example : main_rounds clocks second ≡ (
  lines 200000000000 clocks,
  record second {
    effects =
        statements (update_path_duration [] 200000000000)
        ++ (statements (update_path_duration [] 200000000000) ++ []);
  },
)
unfolding sws.Track.blank
main_rounds-nanoseconds_example =
    main_rounds-nanoseconds clocks second 200000000000 (omega arith) (refl, (refl, tt))

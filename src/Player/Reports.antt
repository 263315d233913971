-- ===== src/Player/Reports.antt =====
-- src/player.cpp, `position`, `duratin` and `position_json`, and the loop of main.cpp, which prints the
-- last of these every five seconds.
pub mod Rounds
use sws.Base.{ℕ, ◌/◌, ◌^◌, Option, none, some, List, [], ◌∷◌, ◌++◌, if◌then◌else◌, ◌==◌, codes}
use sws.Db.Statements.{update_path_duration}
use sws.Player.{Player, statements}
use sws.Player.Json.{Json, number, object, field, end}

-- What the pipeline answers when it is asked for the position and for the duration: nanoseconds, or
-- that it does not know.
pub record Clock : Type 0 where
  pub query_position : Option ℕ
  pub query_duration : Option ℕ

unfoldable pub position : Clock → ℕ
position c = elim c.query_position [ none ↦ 0 | some pos ↦ pos / 1000000000 ]

-- Of a destroyed track it reads the number and the empty path that the body of `~track()` wrote.
unfoldable pub duratin : Clock → Player → ℕ × Player
duratin c p = elim c.query_duration [
  | none ↦ (0, p)
  | some dur ↦ (
    dur / 1000000000,
    if dur == p.current_track.duration then p else record p {
      effects = p.effects ++ statements (update_path_duration p.current_track.path dur);
    },
  )
]

unfoldable pub position_json : Clock → Player → Json × Player
unfolding position duratin
position_json c p =
    let pos = position c in
    let (dur, p') = duratin c p in
    (object (field (codes "Position") (number pos) (field (codes "Duration") (number dur) end)), p')

-- The loop of `main`: what it prints, and the player, after some rounds. It stands behind the starts
-- of the player and of the server, which come back when their loops end.
unfoldable pub main_rounds : List Clock → Player → List Json × Player
main_rounds [] p = ([], p)
main_rounds (c ∷ cs) p =
    let (j, p') = position_json c p in let (js, q) = main_rounds cs p' in (j ∷ js, q)

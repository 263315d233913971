-- ===== src/Player/Reports/Rounds.antt =====
-- What the rounds of the loop in main.cpp write to the catalogue.
use sws.Base.{ℕ, zero, suc, ◌/◌, ◌≡◌, ◌≢◌, some, List, [], ◌∷◌, ◌++◌, arith, length, codes}
use mathlib.Core.List.{append_assoc, append-nil}
use sws.Db.Statements.{update_path_duration}
use sws.Player.{Player, Effect, statements}
use sws.Player.Json.{Json, number, object, field, end}
use sws.Player.Reports.{Clock, position, duratin, position_json, main_rounds}

-- Some effects, so many times.
abbrev pub repeated : ℕ → List Effect → List Effect
repeated zero es = []
repeated (suc n) es = es ++ repeated n es

-- All answers tell this duration.
abbrev pub AllTell : ℕ → List Clock → Type 0
AllTell d [] = Unit
AllTell d (c ∷ cs) = (c.query_duration ≡ some d) × AllTell d cs

-- The line that is printed at an answer.
abbrev pub line : ℕ → Clock → Json
line d c = object (
    field (codes "Position") (number (position c))
      (field (codes "Duration") (number (d / 1000000000)) end))

abbrev pub lines : ℕ → List Clock → List Json
lines d [] = []
lines d (c ∷ cs) = line d c ∷ lines d cs

position_json-tells :
    (c : Clock) (p : Player) (d : ℕ)
    → d ≢ p.current_track.duration
    → c.query_duration ≡ some d
    → position_json c p ≡ (
      line d c,
      record p { effects = p.effects ++ statements (update_path_duration p.current_track.path d) },
    )
unfolding position_json duratin
position_json-tells c p d n e = ground arith

-- As long as the pipeline tells a duration in nanoseconds that differs from the number of the current
-- track, every round prints it in seconds, and pushes once more the statement that sets the track's
-- duration in the catalogue to the nanoseconds; nothing else of the player changes.
pub main_rounds-nanoseconds :
    (cs : List Clock) (p : Player) (d : ℕ)
    → d ≢ p.current_track.duration
    → AllTell d cs
    → main_rounds cs p ≡ (
      lines d cs,
      record p {
        effects =
            p.effects
            ++ repeated (length cs) (statements (update_path_duration p.current_track.path d));
      },
    )
unfolding main_rounds
main_rounds-nanoseconds [] p d n a = rw (append-nil p.effects)
main_rounds-nanoseconds (c ∷ cs) p d n a =
    let told = statements (update_path_duration p.current_track.path d) in
    let p' : Player = record p { effects = p.effects ++ told } in
    rw (position_json-tells c p d n a.0) (
      rw (main_rounds-nanoseconds cs p' d n a.1)
        (rw (append_assoc p.effects told (repeated (length cs) told))))

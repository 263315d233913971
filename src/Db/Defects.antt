-- ===== src/Db/Defects.antt =====
-- Statements of src/db.cpp that are not the ones meant.
use sws.Base.{
  ℕ, zero, suc, ◌+◌, ◌%◌, ◌/◌, ◌<◌, ◌≤◌, ◌≡◌, ◌≢◌, refl, true, false, some, [], ◌∷◌, ◌++◌, Text,
  arith, codes, to_string, ℤ,
}
use mathlib.Core.List.{append_assoc}
use sws.Base.Texts.{decimal_loop, ℤ}
use sws.Db.{Song}
use sws.Db.Literal.{quote, read_literal, after, first, Ends, IsPlain, read_literal-IsPlain}
use sws.Db.Statements.{
  update_track, insert_influence, update_duration, update_path_duration, has_scheme,
}

-- The text begins with a digit or a minus sign.
abbrev pub StartsNumber : Text → Type 0
StartsNumber [] = ⊥
StartsNumber (c ∷ s) = (b'-' ≤ c) × (c ≤ b'9')

decimal_loop-StartsNumber :
    (fuel n : ℕ) (acc : Text) → n < fuel → StartsNumber (decimal_loop fuel n acc)
unfolding decimal_loop
decimal_loop-StartsNumber zero n acc h = absurd (omega arith)
decimal_loop-StartsNumber (suc fuel) n acc h =
    ground (arith, decimal_loop-StartsNumber fuel (n / 10) ((n % 10 + 48) ∷ acc))

to_string-StartsNumber : (z : ℤ) → StartsNumber (to_string z)
unfolding to_string
to_string-StartsNumber (ℤ.pos n) = decimal_loop-StartsNumber (suc n) n [] (omega arith)
to_string-StartsNumber (ℤ.negsuc n) = omega arith

StartsNumber-append : (s t : Text) → StartsNumber s → StartsNumber (s ++ t)
StartsNumber-append [] t h = absurd h
StartsNumber-append (c ∷ s) t h = h

-- `update_track` never pushes an UPDATE statement: what it pushes begins with the number of the
-- track, and does not name the title.
pub update_track-StartsNumber : (s : Song) → StartsNumber (first (update_track s))
unfolding update_track
update_track-StartsNumber s =
    StartsNumber-append (to_string s.track_no) _ (to_string-StartsNumber s.track_no)

-- `insert_influence` does not escape: a quote in the artist's name ends the literal, and the rest of
-- the name is read as SQL.
pub insert_influence-cut :
    (name rest influence : Text)
    → IsPlain name
    → Ends rest
    → rest ≢ []
    → (tail : Text) × (read_literal false (
          after
            (codes "REPLACE INTO _influences VALUES('")
            (first (insert_influence (name ++ (quote ∷ rest)) influence)))
        ≡ some (name, rest ++ tail))
unfolding insert_influence
insert_influence-cut name [] influence p e n = absurd (n refl)
insert_influence-cut name (c ∷ rest) influence p e n =
    let tail : Text = codes "', '" ++ (influence ++ codes "');") in
    (tail, rw append_assoc (read_literal-IsPlain name ((c ∷ rest) ++ tail) p e))

-- `update_duration` looks for the row of a song by the address of its file, "file://" before the
-- path, which is not the path that the catalogue holds.
pub update_duration-address :
    (len : ℕ) (s : Song)
    → s.found ≡ true
    → has_scheme s.path ≡ false
    → (update_duration true true len s).0
      ≡ update_path_duration (codes "file://" ++ s.path) (len / 1000000000)
unfolding update_duration update_path_duration
update_duration-address len s f h = rw (f, h)

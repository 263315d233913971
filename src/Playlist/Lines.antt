-- ===== src/Playlist/Lines.antt =====
-- The lines that `getline` reads from a file.
use sws.Base.{ℕ, List, [], ◌∷◌, ◌++◌, ◌≡◌, refl, ◌≢◌, if◌then◌else◌, ◌==◌, Text, arith}

-- The byte goes to the front of the first line.
abbrev pub onto_first : ℕ → List Text → List Text
onto_first c [] = (c ∷ []) ∷ []
onto_first c (l ∷ ls) = (c ∷ l) ∷ ls

-- A line that no newline ends is read too, if it is not empty.
unfoldable pub lines : Text → List Text
lines [] = []
lines (c ∷ s) = let rest = lines s in if c == 10 then [] ∷ rest else onto_first c rest

abbrev pub IsLine : Text → Type 0
IsLine [] = Unit
IsLine (c ∷ s) = (c ≢ 10) × IsLine s

pub lines-append : (l s : Text) → IsLine l → lines (l ++ 10 ∷ s) ≡ l ∷ lines s
unfolding lines
lines-append [] s h = refl
lines-append (c ∷ l) s h = ground (arith, lines-append l s)

pub IsLine-append : (s t : Text) → IsLine s → IsLine t → IsLine (s ++ t)
IsLine-append [] t h k = k
IsLine-append (c ∷ s) t h k = (h.0, IsLine-append s t h.1 k)

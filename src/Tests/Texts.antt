-- ===== src/Tests/Texts.antt =====
-- A dump of three bytes, and the text of an identifier.
use sws.Base.{ℕ, ◌/◌, ◌&&◌, leb, Bool, List, ◌∷◌, replicate}

abbrev isprint : ℕ → Bool
isprint b = leb 32 b && leb b 126

abbrev over_base : ℕ → List ℕ
over_base u = 0 ∷ 0 ∷ u / 256 ∷ u ∷ replicate 12 0

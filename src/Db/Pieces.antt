-- ===== src/Db/Pieces.antt =====
-- The literals that a reader of SQL finds in a whole statement.
pub mod Tracks
pub mod Carries
use sws.Base.{
  ℕ, zero, suc, ◌+◌, ◌/◌, ◌%◌, ◌≡◌, ◌≢◌, refl, sym, ap, ◌∙◌, Bool, true, false, Option, none, some,
  List, [], ◌∷◌, ◌++◌, ◌==◌, if◌then◌else◌, Text, decimal, arith, codes, ltb,
}
use mathlib.Core.List.{append_assoc, append-nil}
use sws.Base.Texts.{decimal_loop, to_string, ℤ}
use sws.Db.{escape, to_string_bool, to_string_double}
use sws.Db.Literal.{quote, IsPlain}

-- Where a reader is: outside of a literal, in one of which it has read a part, or behind a quote that
-- closes it or is the first of two.
pub data Mode : Type 0 where
  outside : Mode
  inside closing : Text → Mode

abbrev pub found : Text → Option (List Text) → Option (List Text)
found s none = none
found s (some ss) = some (s ∷ ss)

-- The literals of a text; none where one has no end.
pub scan : Mode → Text → Option (List Text)
scan outside [] = some []
scan (inside s) [] = none
scan (closing s) [] = some (s ∷ [])
scan outside (c ∷ t) = scan (if c == quote then inside [] else outside) t
scan (inside s) (c ∷ t) = scan (if c == quote then closing s else inside (s ++ c ∷ [])) t
scan (closing s) (c ∷ t) =
    let more = scan (inside (s ++ c ∷ [])) t in
    let rest = found s (scan outside t) in if c == quote then more else rest

abbrev pub literals : Text → Option (List Text)
literals = scan outside

-- A part of a statement.
pub data Piece : Type 0 where
  plain quoted : Text → Piece

abbrev pub render : List Piece → Text
render [] = []
render (plain p ∷ ps) = p ++ render ps
render (quoted s ∷ ps) = quote ∷ (escape s ++ (quote ∷ render ps))

abbrev pub values : List Piece → List Text
values [] = []
values (plain p ∷ ps) = values ps
values (quoted s ∷ ps) = s ∷ values ps

-- The plain parts hold no quote, and one that is not empty stands behind each quoted part.
abbrev pub Alternate : List Piece → Type 0
Alternate [] = Unit
Alternate (plain p ∷ ps) = IsPlain p × Alternate ps
Alternate (quoted s ∷ []) = Unit
Alternate (quoted s ∷ quoted t ∷ ps) = ⊥
Alternate (quoted s ∷ plain [] ∷ ps) = ⊥
Alternate (quoted s ∷ plain (c ∷ p) ∷ ps) = IsPlain (c ∷ p) × Alternate ps

scan-plain : (p t : Text) → IsPlain p → scan outside (p ++ t) ≡ scan outside t
unfolding scan
scan-plain [] t h = refl
scan-plain (c ∷ p) t h = ground (arith, scan-plain p t)

scan-quoted : (s t u : Text) → scan (inside s) (escape t ++ (quote ∷ u)) ≡ scan (closing (s ++ t)) u
unfolding scan escape
scan-quoted s [] u = ap (λ k. scan (closing k) u) (sym (append-nil s))
scan-quoted s (c ∷ t) u = ground (arith, scan-quoted (s ++ c ∷ []) t u, append_assoc s (c ∷ []) t)

scan-closing :
    (s : Text) (c : ℕ) (p t : Text)
    → IsPlain (c ∷ p)
    → scan (closing s) ((c ∷ p) ++ t) ≡ found s (scan outside t)
unfolding scan
scan-closing s c p t h = ground (arith, scan-plain p t)

-- The literals of rendered parts are the quoted ones.
pub literals-render : (ps : List Piece) → Alternate ps → literals (render ps) ≡ some (values ps)
unfolding scan
literals-render [] a = refl
literals-render (plain p ∷ ps) a = scan-plain p (render ps) a.0 ∙ literals-render ps a.1
literals-render (quoted s ∷ []) a = scan-quoted [] s []
literals-render (quoted s ∷ quoted t ∷ ps) a = absurd a
literals-render (quoted s ∷ plain [] ∷ ps) a = absurd a
literals-render (quoted s ∷ plain (c ∷ p) ∷ ps) a =
    scan-quoted [] s (render (plain (c ∷ p) ∷ ps))
    ∙ scan-closing s c p (render ps) a.0
    ∙ ap (found s) (literals-render ps a.1)

-- What needs no quotes.
pub IsPlain-append : (s t : Text) → IsPlain s → IsPlain t → IsPlain (s ++ t)
IsPlain-append [] t h k = k
IsPlain-append (c ∷ s) t h k = (h.0, IsPlain-append s t h.1 k)

pub escape-IsPlain : (s : Text) → IsPlain s → escape s ≡ s
unfolding escape
escape-IsPlain [] h = refl
escape-IsPlain (c ∷ s) h = ground (arith, escape-IsPlain s)

decimal_loop-IsPlain : (fuel n : ℕ) (acc : Text) → IsPlain acc → IsPlain (decimal_loop fuel n acc)
unfolding decimal_loop
decimal_loop-IsPlain zero n acc h = h
decimal_loop-IsPlain (suc fuel) n acc h =
    ground (arith, decimal_loop-IsPlain fuel (n / 10) ((n % 10 + 48) ∷ acc))

pub decimal-IsPlain : (n : ℕ) → IsPlain (decimal n)
unfolding decimal
decimal-IsPlain n = decimal_loop-IsPlain (suc n) n [] tt

pub to_string-IsPlain : (z : ℤ) → IsPlain (to_string z)
unfolding to_string
to_string-IsPlain (ℤ.pos n) = decimal-IsPlain n
to_string-IsPlain (ℤ.negsuc n) = (omega arith, decimal-IsPlain (suc n))

pub to_string_bool-IsPlain : (b : Bool) → IsPlain (to_string_bool b)
unfolding to_string_bool
to_string_bool-IsPlain true = omega arith
to_string_bool-IsPlain false = omega arith

pub to_string_double-IsPlain : (d : ℕ) → IsPlain (to_string_double d)
unfolding to_string_double
to_string_double-IsPlain d =
    IsPlain-append (decimal d) (codes ".000000") (decimal-IsPlain d) (omega arith)

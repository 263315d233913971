-- ===== src/Db/Literal.antt =====
-- What a reader of SQL makes of the quoted texts in the statements.
use sws.Base.{
  ℕ, ◌≡◌, ◌≢◌, refl, ap, ◌∙◌, Bool, true, false, Option, none, some, List, [], ◌∷◌, ◌++◌, ◌==◌,
  if◌then◌else◌, Text, arith, codes, drop, length, drop-append,
}
use mathlib.Core.List.{append_assoc}
use sws.Db.{escape}
use sws.Db.Statements.{insert_path, remove_track, remove_path_from_playlist}

abbrev pub quote : ℕ
quote = b'\''

abbrev cons_to : ℕ → Option (Text × Text) → Option (Text × Text)
cons_to c none = none
cons_to c (some (s, rest)) = some (c ∷ s, rest)

-- A text literal from behind its opening quote: its value, and what follows the closing quote.
-- `pending` says that the last byte was a quote: it is doubled, or it was the closing one.
pub read_literal : (pending : Bool) → Text → Option (Text × Text)
read_literal false [] = none
read_literal true [] = some ([], [])
read_literal false (c ∷ s) =
    let closing = read_literal true s in
    let more = read_literal false s in if c == quote then closing else cons_to c more
read_literal true (c ∷ s) =
    let more = read_literal false s in if c == quote then cons_to c more else some ([], c ∷ s)

-- The text does not go on with a quote.
abbrev pub Ends : Text → Type 0
Ends [] = Unit
Ends (c ∷ s) = c ≢ quote

read_literal-closing : (rest : Text) → Ends rest → read_literal true rest ≡ some ([], rest)
unfolding read_literal
read_literal-closing [] e = refl
read_literal-closing (c ∷ rest) e = ground arith

-- A text that `escape` has gone through is read back as it was.
pub read_literal-escape :
    (s rest : Text) → Ends rest → read_literal false (escape s ++ (quote ∷ rest)) ≡ some (s, rest)
unfolding read_literal escape
read_literal-escape [] rest e = read_literal-closing rest e
read_literal-escape (c ∷ s) rest e = ground (arith, read_literal-escape s rest e)

-- No quote.
abbrev pub IsPlain : Text → Type 0
IsPlain [] = Unit
IsPlain (c ∷ s) = (c ≢ quote) × IsPlain s

pub read_literal-IsPlain :
    (s rest : Text)
    → IsPlain s
    → Ends rest
    → read_literal false (s ++ (quote ∷ rest)) ≡ some (s, rest)
unfolding read_literal
read_literal-IsPlain [] rest p e = read_literal-closing rest e
read_literal-IsPlain (c ∷ s) rest p e = ground (arith, read_literal-IsPlain s rest)

abbrev pub first : List Text → Text
first [] = []
first (s ∷ ss) = s

-- What follows `p` at the head of a text.
abbrev pub after : Text → Text → Text
after p s = drop (length p) s

after-named : (p name w t : Text) → after (p ++ (name ++ w)) (p ++ (name ++ (w ++ t))) ≡ t
after-named p name w t =
    let e : p ++ (name ++ (w ++ t)) ≡ (p ++ (name ++ w)) ++ t = simp append_assoc in
    rw e (drop-append (p ++ (name ++ w)) t)

-- The statements that add a path, and that remove it from the catalogue or from a playlist, name
-- exactly this path, whatever bytes it has.
pub statements-path :
    (name path : Text)
    → (read_literal false
          (after (codes "INSERT INTO db_catalog (path) VALUES('") (first (insert_path path)))
        ≡ some (path, codes ");"))
      × (read_literal false
            (after (codes "DELETE FROM db_catalog WHERE path='") (first (remove_track path)))
          ≡ some (path, codes ";"))
      × (read_literal false (
            after
              (codes "DELETE FROM [" ++ (name ++ codes "] WHERE path='"))
              (first (remove_path_from_playlist name path)))
          ≡ some (path, codes ";"))
unfolding insert_path remove_track remove_path_from_playlist
statements-path name path = (
  read_literal-escape path (codes ");") (ground arith),
  read_literal-escape path (codes ";") (ground arith),
  ap (read_literal false) (
        after-named (codes "DELETE FROM [") name (codes "] WHERE path='")
          (escape path ++ (quote ∷ codes ";")))
      ∙ read_literal-escape path (codes ";") (ground arith),
)

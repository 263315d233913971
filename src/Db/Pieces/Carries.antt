-- ===== src/Db/Pieces/Carries.antt =====
-- What the statements of src/db.cpp carry: the literals in them are the texts that were handed over.
use sws.Base.{
  ℕ, suc, ◌-◌, ◌<◌, ◌≡◌, refl, sym, ap, ◌∙◌, some, List, [], ◌∷◌, ◌++◌, Text, arith, codes, length,
  length-append, take, map,
}
use mathlib.Core.List.{append_assoc, append-nil}
use sws.Base.Texts.{to_string, ℤ}
use sws.Db.{escape, to_string_double}
use sws.Db.Literal.{quote, IsPlain, first}
use sws.Db.Statements.{
  insert_playlist, set_playlist_current, update_path_duration, add_to_playlist, playlist_values,
  remove_from_playlist, remove_path_from_playlist,
}
use sws.Db.Pieces.{
  Piece, Alternate, values, plain, quoted, render, literals, literals-render, IsPlain-append,
  to_string-IsPlain, to_string_double-IsPlain,
}

-- The parts of the list of the last of them with a semicolon.
abbrev value_pieces : Text → List Text → List Piece
value_pieces p [] = plain (codes "(") ∷ quoted p ∷ plain (codes ");") ∷ []
value_pieces p (q ∷ ps) = plain (codes "(") ∷ quoted p ∷ plain (codes "),") ∷ value_pieces q ps

-- `substr(0, length() - 1)`
abbrev shorter : Text → Text
shorter s = take (length s - 1) s

shorter-append : (a b : Text) → 0 < length b → shorter (a ++ b) ≡ a ++ shorter b
shorter-append [] b h = refl
shorter-append (c ∷ a) b h =
    let e : suc (length (a ++ b)) - 1 ≡ suc (length (a ++ b) - 1) =
      omega (arith, length-append a b) in
    rw e (ap (λ t. c ∷ t) (shorter-append a b h))

length-playlist_values : (p : Text) (ps : List Text) → 0 < length (playlist_values (p ∷ ps))
unfolding playlist_values
length-playlist_values p ps = omega arith

playlist_values-cons :
    (p : Text) (ps : List Text)
    → playlist_values (p ∷ ps)
      ≡ (codes "('" ++ (escape p ++ codes "')")) ++ (codes "," ++ playlist_values ps)
unfolding playlist_values
playlist_values-cons p ps = simp (append_assoc, append-nil)

shorter-playlist_values :
    (p : Text) (ps : List Text)
    → shorter (playlist_values (p ∷ ps)) ++ codes ";" ≡ render (value_pieces p ps)
shorter-playlist_values p [] =
    rw
      (
        playlist_values-cons p [],
        shorter-append (codes "('" ++ (escape p ++ codes "')")) (codes "," ++ playlist_values [])
            (omega arith),
      )
      (unfold playlist_values in simp (append_assoc, append-nil))
shorter-playlist_values p (q ∷ ps) =
    rw
      (
        playlist_values-cons p (q ∷ ps),
        shorter-append (codes "('" ++ (escape p ++ codes "')"))
            (codes "," ++ playlist_values (q ∷ ps)) (omega (arith, length-playlist_values q ps)),
        shorter-append (codes ",") (playlist_values (q ∷ ps)) (length-playlist_values q ps),
      )
      (simp append_assoc (rw (shorter-playlist_values q ps) refl))

value_pieces-values :
    (p : Text) (ps : List Text)
    → Alternate (value_pieces p ps) × (values (value_pieces p ps) ≡ p ∷ ps)
value_pieces-values p [] = (omega arith, refl)
value_pieces-values p (q ∷ ps) =
    let (a, e) = value_pieces-values q ps in ((omega arith, (omega arith, a)), ap (λ t. p ∷ t) e)

IsPlain-named :
    (before name after : Text)
    → IsPlain before
    → IsPlain name
    → IsPlain after
    → IsPlain (before ++ (name ++ after))
IsPlain-named before name after b n a =
    IsPlain-append before (name ++ after) b (IsPlain-append name after n a)

literals-IsPlain : (p : Text) → IsPlain p → literals p ≡ some []
literals-IsPlain p h = ap literals (sym (append-nil p)) ∙ literals-render (plain p ∷ []) (h, tt)

cons_eq : {A : Type 0} {a b : A} {s t : List A} → a ≡ b → s ≡ t → a ∷ s ≡ b ∷ t
cons_eq e f = rw (e, f)

-- The two statements that add paths to a playlist whose name holds no quote carry no text, and exactly
-- the paths, in their order, whatever bytes they have.
pub literals-add_to_playlist :
    (name p : Text) (ps : List Text)
    → IsPlain name
    → map literals (add_to_playlist name (p ∷ ps)) ≡ some [] ∷ some (p ∷ ps) ∷ []
unfolding add_to_playlist
literals-add_to_playlist name p ps h =
    cons_eq
      (literals-IsPlain _ (
        IsPlain-named (codes "CREATE TABLE IF NOT EXISTS [") name
          (codes "] (path TEXT PRIMARY KEY);") (omega arith) h (omega arith)))
      (cons_eq
        (ap (λ t. literals (codes "REPLACE INTO [" ++ (name ++ (codes "] VALUES " ++ t))))
            (shorter-playlist_values p ps)
          ∙ ap literals (values_named (render (value_pieces p ps)))
          ∙ literals-render (plain before ∷ value_pieces p ps) (
            IsPlain-named (codes "REPLACE INTO [") name (codes "] VALUES ") (omega arith) h
                (omega arith),
            (value_pieces-values p ps).0,
          )
          ∙ ap some (value_pieces-values p ps).1)
        refl)
  where
    before : Text
    before = codes "REPLACE INTO [" ++ (name ++ codes "] VALUES ")

    values_named :
        (t : Text) → codes "REPLACE INTO [" ++ (name ++ (codes "] VALUES " ++ t)) ≡ before ++ t
    values_named t = simp append_assoc

-- A statement with one literal, at its end.
literals-one :
    (a b c s : Text)
    → IsPlain a
    → IsPlain b
    → IsPlain c
    → literals (a ++ (b ++ (c ++ (quote ∷ (escape s ++ codes "';"))))) ≡ some (s ∷ [])
literals-one a b c s h k l =
    ap literals e ∙ literals-render ps (IsPlain-named a b c h k l, (omega arith, tt))
  where
    ps : List Piece
    ps = plain (a ++ (b ++ c)) ∷ quoted s ∷ plain (codes ";") ∷ []

    e : a ++ (b ++ (c ++ (quote ∷ (escape s ++ codes "';")))) ≡ render ps
    e = simp append_assoc

-- The statements that remove paths from a playlist whose name holds no quote carry one path each, in
-- their order.
pub literals-remove_from_playlist :
    (name : Text) (ps : List Text)
    → IsPlain name
    → map literals (remove_from_playlist name ps) ≡ map (λ p. some (p ∷ [])) ps
unfolding remove_from_playlist remove_path_from_playlist
literals-remove_from_playlist name [] h = refl
literals-remove_from_playlist name (p ∷ ps) h =
    cons_eq
      (literals-one (codes "DELETE FROM [") name (codes "] WHERE path=") p (omega arith) h
        (omega arith))
      (literals-remove_from_playlist name ps h)

-- The statements of a playlist, of the track it is at and of a track's duration carry the playlist's
-- name and source, its name, and the path.
pub literals-named :
    (name source path : Text) (current : ℤ) (d : ℕ)
    → (literals (first (insert_playlist name source)) ≡ some (name ∷ source ∷ []))
      × (literals (first (set_playlist_current name current)) ≡ some (name ∷ []))
      × (literals (first (update_path_duration path d)) ≡ some (path ∷ []))
unfolding insert_playlist set_playlist_current update_path_duration
literals-named name source path current d = (
  literals-render
      (plain (codes "REPLACE INTO _playlist (name, source) VALUES (")
        ∷ quoted name
        ∷ plain (codes ",")
        ∷ quoted source
        ∷ plain (codes ");")
        ∷ [])
      (omega arith),
  literals-one (codes "UPDATE _playlist SET current=") (to_string current) (codes " WHERE name=")
      name (omega arith) (to_string-IsPlain current) (omega arith),
  literals-one (codes "UPDATE db_catalog SET duration = ") (to_string_double d)
      (codes " WHERE path=") path (omega arith) (to_string_double-IsPlain d) (omega arith),
)

-- ===== src/Db/Reads/Written.antt =====
-- The statement of `insert_track` in src/db.cpp, value by value.
use sws.Base.{
  ◌≡◌, ap, ◌∙◌, Bool, true, false, refl, List, [], ◌∷◌, ◌++◌, Text, ℤ, codes, to_string, decimal,
  arith, if◌then◌else◌,
}
use sws.Base.Texts.{ℤ}
use sws.Db.{Song, escape, escape_song, to_query_string, to_string_bool, to_string_double}
use sws.Db.Literal.{IsPlain, quote}
use sws.Db.Statements.{insert_track}
use sws.Db.Reads.Schema.{Value, text, number, real, inserted}

-- A value as SQL writes it, in front of a text.
abbrev written : Value → Text → Text
written (text t) rest = quote ∷ (escape t ++ (quote ∷ rest))
written (number z) rest = to_string z ++ rest
written (real d) rest = to_string_double d ++ rest

abbrev written_all : List Value → Text → Text
written_all [] rest = rest
written_all (v ∷ []) rest = written v rest
written_all (v ∷ w ∷ vs) rest = written v (codes ", " ++ written_all (w ∷ vs) rest)

-- The INSERT of a list of values into the catalogue.
abbrev pub insert_of : List Value → Text
insert_of vs = codes "INSERT INTO db_catalog VALUES(" ++ written_all vs (codes ");")

escape-IsPlain : (s : Text) → IsPlain s → escape s ≡ s
unfolding escape
escape-IsPlain [] h = refl
escape-IsPlain (c ∷ s) h = ground (arith, h.0, escape-IsPlain s h.1)

to_string_bool-number : (b : Bool) → to_string_bool b ≡ to_string (if b then ℤ.pos 1 else ℤ.pos 0)
unfolding to_string_bool to_string decimal
to_string_bool-number true = refl
to_string_bool-number false = refl

to_string-pos : (n : sws.Base.ℕ) → decimal n ≡ to_string (ℤ.pos n)
unfolding to_string
to_string-pos n = refl

-- The statement lists the values of the song, in the order of the table.
pub insert_track-inserted :
    (s : Song) → IsPlain s.spotify_id → IsPlain s.md5 → insert_track s ≡ insert_of (inserted s) ∷ []
unfolding insert_track to_query_string escape_song
insert_track-inserted s p q =
    rw
      (
        escape-IsPlain s.spotify_id p,
        escape-IsPlain s.md5 q,
        to_string_bool-number s.favorite,
        to_string-pos s.year,
      )
      (ap (λ t. t ∷ []) (simp mathlib.Core.List.append_assoc))

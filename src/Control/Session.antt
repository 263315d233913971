-- ===== src/Control/Session.antt =====
-- What the database has of a run of the player, whoever drives it: the positions that `play` pushes in
-- src/player.cpp.
pub mod Plays
pub mod Inputs
pub mod Continues
use sws.Base.{◌≡◌, ap, sym, ◌∙◌, refl, Option, none, some, List, ◌++◌, Text, ℤ, ◌>>=◌}
use sws.Base.Texts.{ℤ}
use sws.Player.{Player, Effect, index}
use sws.Player.Sessions.{Sqlite, executed, overwrite}
use sws.Player.Sessions.Position.{executed-append}

-- A result has the property, where there is one.
abbrev pub Every : {A : Type 0} → (A → Type 0) → Option A → Type 0
Every P none = Unit
Every P (some a) = P a

pub Every-elim :
    {A B : Type 0} (P : B → Type 0) (o : Option A) (f : A → Option B)
    → ((a : A) → Every P (f a))
    → Every P (elim o [ none ↦ none | some a ↦ f a ])
Every-elim P none f h = tt
Every-elim P (some a) f h = h a

pub Every->>= :
    {A B : Type 0} (Q : A → Type 0) (P : B → Type 0) (o : Option A) (f : A → Option B)
    → Every Q o
    → ((a : A) → Q a → Every P (f a))
    → Every P (o >>= f)
Every->>= Q P none f k h = tt
Every->>= Q P (some a) f k h = h a k

pub Every-some : {A : Type 0} (P : A → Type 0) (o : Option A) (a : A) → o ≡ some a → Every P o → P a
Every-some P o a e h = rw e at h

module _ {Db : Type 0} (S : Sqlite Db) (d : Db) where
  -- The position of a playlist, once the database has executed what the player pushed.
  abbrev pub row : Player → Text → Option ℤ
  row p m = S.current (executed S p.effects d) m

  -- There are the rows that there were.
  abbrev pub IsKept : (Text → Option ℤ) → Player → Type 0
  IsKept before p = (m : Text) (z : ℤ) → overwrite z (row p m) ≡ overwrite z (before m)

  -- The row of the current playlist has the position in it.
  abbrev pub IsSaved : (Text → Option ℤ) → Player → Type 0
  IsSaved before p =
      IsKept before p
      × (row p p.current_playlist.name
          ≡ overwrite (ℤ.pos (index p.it_track)) (before p.current_playlist.name))

  -- Effects that leave the positions.
  abbrev pub IsQuiet : List Effect → Type 0
  IsQuiet es = (e : Db) (m : Text) → S.current (executed S es e) m ≡ S.current e m

  row-quiet :
      (p q : Player) (es : List Effect)
      → q.effects ≡ p.effects ++ es
      → IsQuiet es
      → (m : Text) → row q m ≡ row p m
  row-quiet p q es f h m =
      ap (λ (fs : List Effect). S.current (executed S fs d) m) f
      ∙ ap (λ e. S.current e m) (executed-append S p.effects es d)
      ∙ h (executed S p.effects d) m

  pub IsKept-quiet :
      (before : Text → Option ℤ) (p q : Player) (es : List Effect)
      → q.effects ≡ p.effects ++ es
      → IsQuiet es
      → IsKept before p
      → IsKept before q
  IsKept-quiet before p q es f h k m z = ap (overwrite z) (row-quiet p q es f h m) ∙ k m z

  pub IsSaved-quiet :
      (before : Text → Option ℤ) (p q : Player) (es : List Effect)
      → q.effects ≡ p.effects ++ es
      → IsQuiet es
      → q.current_playlist ≡ p.current_playlist
      → q.it_track ≡ p.it_track
      → IsSaved before p
      → IsSaved before q
  IsSaved-quiet before p q es f h c t k = (
    IsKept-quiet before p q es f h k.0,
    rw (c, t) (row-quiet p q es f h p.current_playlist.name ∙ k.1),
  )

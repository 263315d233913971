-- ===== src/Md5/Absorb.antt =====
-- What MD5 makes of a sequence of bytes, taken one by one.
use sws.Base.{
  ℕ, ◌+◌, ◌<◌, ◌≡◌, refl, ap, sym, ◌∙◌, ◌==◌, if◌then◌else◌, List, [], ◌∷◌, ◌++◌, length,
  length-append, arith,
}
use mathlib.Core.List.{append-nil, append_assoc}
use sws.Md5.{State, transform}

-- The state, and the bytes that are still too few for a block.
abbrev pub Absorbed : Type 0
Absorbed = State × List ℕ

module _ (W : ℕ) where
  abbrev pub feed : Absorbed → ℕ → Absorbed
  feed (s, p) b =
      if length (p ++ b ∷ []) == 64 then (transform W s (p ++ b ∷ []), []) else (s, p ++ b ∷ [])

  abbrev pub absorb : Absorbed → List ℕ → Absorbed
  absorb r [] = r
  absorb r (b ∷ m) = absorb (feed r b) m

  pub absorb-append : (r : Absorbed) (m n : List ℕ) → absorb r (m ++ n) ≡ absorb (absorb r m) n
  absorb-append r [] n = refl
  absorb-append r (b ∷ m) n = absorb-append (feed r b) m n

  length-snoc : (p : List ℕ) (b : ℕ) → length (p ++ b ∷ []) ≡ length p + 1
  length-snoc p b = length-append p (b ∷ [])

  feed-short :
      (s : State) (p : List ℕ) (b : ℕ) → length p + 1 < 64 → feed (s, p) b ≡ (s, p ++ b ∷ [])
  feed-short s p b h = rw (length-snoc p b) (ground arith)

  -- Bytes that do not fill a block are kept.
  pub absorb-short :
      (s : State) (p m : List ℕ) → length p + length m < 64 → absorb (s, p) m ≡ (s, p ++ m)
  absorb-short s p [] h = ap (λ q. (s, q)) (sym (append-nil p))
  absorb-short s p (b ∷ m) h = rw (feed-short s p b (omega arith)) (
      absorb-short s (p ++ b ∷ []) m (omega (arith, length-snoc p b))
      ∙ ap (λ q. (s, q)) (append_assoc p (b ∷ []) m))

  -- Bytes that fill a block are transformed.
  pub absorb-block :
      (s : State) (p m : List ℕ)
      → length p < 64
      → length p + length m ≡ 64
      → absorb (s, p) m ≡ (transform W s (p ++ m), [])
  absorb-block s p [] k h = absurd (omega arith)
  absorb-block s p (b ∷ []) k h =
      let e : length (p ++ b ∷ []) ≡ 64 = length-snoc p b ∙ omega arith in rw e refl
  absorb-block s p (b ∷ c ∷ m) k h = rw (feed-short s p b (omega arith)) (
      absorb-block s (p ++ b ∷ []) (c ∷ m) (omega (arith, length-snoc p b))
        (omega (arith, length-snoc p b))
      ∙ ap (λ q. (transform W s q, [])) (append_assoc p (b ∷ []) (c ∷ m)))

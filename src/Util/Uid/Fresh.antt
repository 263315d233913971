-- ===== src/Util/Uid/Fresh.antt =====
-- What `util_get_uid` promises of the identifier that it hands out.
use sws.Base.{
  ℕ, zero, suc, ◌-◌, ◌<◌, ◌≤◌, ◌≡◌, ◌≢◌, refl, Bool, true, false, ◌⊎◌, inl, inr, Bool-cases, ◌==◌,
  ◌||◌, ltb, List, [], ◌∷◌, ◌&&◌, take, length, get_or, set, arith, ap,
}
use sws.Util.Uid.{ffs_not, util_get_uid, util_clear_uid}

ffs_not-le : (b : List Bool) → ffs_not b ≤ length b
unfolding ffs_not
ffs_not-le [] = omega arith
ffs_not-le (false ∷ b) = omega arith
ffs_not-le (true ∷ b) = ground (arith, ffs_not-le b)

abbrev pub all_set : List Bool → Bool
all_set [] = true
all_set (x ∷ b) = x && all_set b

-- Below the result every bit is set; where it is 0, all of them.
ffs_not-all_set :
    (b : List Bool) (n : ℕ) → (ffs_not b ≡ 0) ⊎ (n < ffs_not b) → all_set (take n b) ≡ true
unfolding ffs_not
ffs_not-all_set b zero h = refl
ffs_not-all_set [] (suc n) h = refl
ffs_not-all_set (false ∷ b) (suc n) h = ground arith
ffs_not-all_set (true ∷ b) (suc n) h = ground (arith, ffs_not-all_set b n)

get_or-cons :
    (x : Bool) (b : List Bool) (n : ℕ) → n ≢ 0 → get_or (x ∷ b) n false ≡ get_or b (n - 1) false
get_or-cons x b zero h = absurd (h refl)
get_or-cons x b (suc n) h = ap (λ k. get_or b k false) (omega arith)

ffs_not-clear : (b : List Bool) → ffs_not b ≢ 0 → get_or b (ffs_not b - 1) false ≡ false
unfolding ffs_not
ffs_not-clear [] h = refl
ffs_not-clear (false ∷ b) h = refl
ffs_not-clear (true ∷ b) h = ground (arith, ffs_not-clear b, get_or-cons true b (ffs_not b))

-- An identifier that is handed out lies in the range, was clear and is set now, with the other bits
-- as they were, and is the least clear one. The result is 0 only where no identifier up to `max` is
-- clear, and leaves the bitmap.
pub util_get_uid_lem :
    (bitmap : List Bool) (max : ℕ)
    → let (bitmap', id) = util_get_uid bitmap max in
      ((id ≡ 0) × (bitmap' ≡ bitmap) × (all_set (take max bitmap) ≡ true))
      ⊎ ((0 < id)
          × (id ≤ max)
          × (id ≤ length bitmap)
          × (get_or bitmap (id - 1) false ≡ false)
          × (bitmap' ≡ set bitmap (id - 1) true)
          × (all_set (take (id - 1) bitmap) ≡ true))
unfolding util_get_uid
util_get_uid_lem b max = elim (Bool-cases (ffs_not b == 0 || ltb max (ffs_not b))) [
  | inl e ↦ inl (rw e refl, rw e refl, ffs_not-all_set b max (ground arith))
  | inr e ↦ inr (
    rw e (ground arith),
    rw e (ground arith),
    rw e (ffs_not-le b),
    rw e (ground (arith, ffs_not-clear b)),
    rw e refl,
    rw e (ffs_not-all_set b (ffs_not b - 1) (ground arith)),
  )
]

set-set_back : (b : List Bool) (i : ℕ) → get_or b i false ≡ false → set (set b i true) i false ≡ b
set-set_back [] i h = refl
set-set_back (x ∷ b) zero h = ground arith
set-set_back (x ∷ b) (suc i) h = ap (λ t. x ∷ t) (set-set_back b i h)

-- Giving an identifier back restores the bitmap from before it was handed out.
pub util_clear_uid-util_get_uid :
    (bitmap : List Bool) (max : ℕ)
    → let (bitmap', id) = util_get_uid bitmap max in util_clear_uid bitmap' id ≡ bitmap
unfolding util_clear_uid util_get_uid
util_clear_uid-util_get_uid b max = ground (arith, ffs_not-clear b, set-set_back b (ffs_not b - 1))

-- ===== src/Util/Text/Suffix.antt =====
-- `strsuffix` against suffixes of lists.
use sws.Base.{
  ℕ, zero, suc, ◌-◌, ◌≡◌, ◌≢◌, ◌⊎◌, inl, inr, ◌↔◌, refl, ◌∙◌, sym, ap, some, List, [], ◌∷◌, ◌++◌,
  length, take, drop, arith, length-append, drop-append,
}
use Prim.Native.Nat.{Ordering}
use sws.Util.Text.{strncmp, strsuffix}

strncmp-eq : (a b : List ℕ) → length a ≡ length b → strncmp a b (length b) ≡ Ordering.eq → a ≡ b
unfolding strncmp
strncmp-eq [] [] l h = refl
strncmp-eq [] (y ∷ b) l h = absurd (omega arith)
strncmp-eq (x ∷ a) [] l h = absurd (omega arith)
strncmp-eq (x ∷ a) (y ∷ b) l h = ground (arith, strncmp-eq a b)

strncmp_refl : (a : List ℕ) → strncmp a a (length a) ≡ Ordering.eq
unfolding strncmp
strncmp_refl [] = refl
strncmp_refl (x ∷ a) = ground (arith, strncmp_refl a)

take-drop : (n : ℕ) (s : List ℕ) → take n s ++ drop n s ≡ s
take-drop zero s = refl
take-drop (suc n) [] = refl
take-drop (suc n) (x ∷ s) = ap (λ t. x ∷ t) (take-drop n s)

length-drop : (n : ℕ) (s : List ℕ) → length (drop n s) ≡ length s - n
length-drop zero s = omega arith
length-drop (suc n) [] = omega arith
length-drop (suc n) (x ∷ s) = omega (arith, length-drop n s)

drop-suffix : (p s : List ℕ) → drop (length (p ++ s) - length s) (p ++ s) ≡ s
drop-suffix p s =
    let e : length (p ++ s) - length s ≡ length p = omega (arith, length-append p s) in
    rw e (drop-append p s)

strsuffix-nil : (str : List ℕ) → strsuffix (some str) (some []) ≡ Ordering.eq → str ≡ []
unfolding strsuffix
strsuffix-nil [] h = refl
strsuffix-nil (x ∷ str) h = ground arith

strsuffix-append :
    (p s : List ℕ) → (s ≡ [] → p ++ s ≡ []) → strsuffix (some (p ++ s)) (some s) ≡ Ordering.eq
unfolding strsuffix
strsuffix-append p [] k = rw (k refl) (strncmp_refl [])
strsuffix-append p (x ∷ s) k =
    ground (arith, drop-suffix p (x ∷ s), strncmp_refl (x ∷ s), length-append p (x ∷ s))

strsuffix-suffix :
    (str s : List ℕ)
    → strsuffix (some str) (some s) ≡ Ordering.eq
    → drop (length str - length s) str ≡ s
unfolding strsuffix
strsuffix-suffix str s h =
    let n = length str - length s in ground (arith, length-drop n str, strncmp-eq (drop n str) s)

-- The result is 0 exactly when the text ends in the suffix, but that an empty suffix is found in
-- the empty text only.
pub strsuffix-eq :
    (str suffix : List ℕ)
    → (strsuffix (some str) (some suffix) ≡ Ordering.eq)
      ↔ (((p : List ℕ) × (str ≡ p ++ suffix)) × ((suffix ≢ []) ⊎ (str ≡ [])))
strsuffix-eq str suffix = (
  λ h. (
    (
      take (length str - length suffix) str,
      sym (take-drop (length str - length suffix) str)
          ∙ ap (λ t. take (length str - length suffix) str ++ t) (strsuffix-suffix str suffix h),
    ),
    ends suffix h,
  ),
  λ ((p, e), k). rw e (strsuffix-append p suffix (λ n. sym e ∙ empty k n)),
)
  where
    ends : (s : List ℕ) → strsuffix (some str) (some s) ≡ Ordering.eq → (s ≢ []) ⊎ (str ≡ [])
    ends [] h = inr (strsuffix-nil str h)
    ends (x ∷ s) h = inl (λ e. ground arith)

    empty : (suffix ≢ []) ⊎ (str ≡ []) → suffix ≡ [] → str ≡ []
    empty (inl n) e = absurd (n e)
    empty (inr h) e = h

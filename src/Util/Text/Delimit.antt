-- ===== src/Util/Text/Delimit.antt =====
-- `strdelimit` against the map that it computes, and where it does not end.
use sws.Base.{
  ℕ, zero, suc, ◌<◌, ◌≡◌, ◌≢◌, refl, ap, sym, Bool, true, false, none, some, List, [], ◌∷◌, ◌++◌,
  ◌==◌, if◌then◌else◌, length, map, arith, Option-cases, inl, inr,
}
use sws.Util.Text.{strchr, replace_loop, delimit_loop, strdelimit}

abbrev pub contains : ℕ → List ℕ → Bool
contains x [] = false
contains x (d ∷ del) = if x == d then true else contains x del

-- Every byte of `del` replaced by `c`.
abbrev pub replaced : List ℕ → ℕ → ℕ → ℕ
replaced del c x = if contains x del then c else x

-- How often `d` stands in the text.
abbrev count : ℕ → List ℕ → ℕ
count d [] = 0
count d (x ∷ s) = let n = count d s in if x == d then suc n else n

strchr-none : (s : List ℕ) (d c : ℕ) → strchr s d ≡ none → map (replaced (d ∷ []) c) s ≡ s
unfolding strchr
strchr-none [] d c h = refl
strchr-none (x ∷ s) d c h = ground (arith, strchr-none s d c)

strchr-some :
    (s : List ℕ) (d c : ℕ) (p q : List ℕ)
    → strchr s d ≡ some (p, q)
    → c ≢ d
    → (map (replaced (d ∷ []) c) s ≡ p ++ map (replaced (d ∷ []) c) (c ∷ q))
      × (count d s ≡ suc (count d (c ∷ q)))
unfolding strchr
strchr-some [] d c p q h n = ground arith
strchr-some (x ∷ s) d c p q h n = elim (Option-cases (strchr s d)) [
  | inl e ↦ ground arith
  | inr ((p', q'), e) ↦ ground (arith, strchr-some s d c p' q' e n)
]

count-le : (d : ℕ) (s : List ℕ) → count d s < suc (length s)
count-le d [] = omega arith
count-le d (x ∷ s) = ground (arith, count-le d s)

replace_loop_lem :
    (fuel : ℕ) (s : List ℕ) (d c : ℕ)
    → c ≢ 0
    → c ≢ d
    → count d s < fuel
    → replace_loop fuel s d c ≡ some (map (replaced (d ∷ []) c) s)
unfolding replace_loop
replace_loop_lem zero s d c z n h = absurd (omega arith)
replace_loop_lem (suc fuel) s d c z n h = elim (Option-cases (strchr s d)) [
  | inl e ↦ ground (arith, strchr-none s d c e)
  | inr ((p, q), e) ↦ ground (arith, strchr-some s d c p q e n, replace_loop_lem fuel (c ∷ q) d c)
]

length-replaced : (del s : List ℕ) (c : ℕ) → length (map (replaced del c) s) ≡ length s
length-replaced del [] c = refl
length-replaced del (x ∷ s) c = ap suc (length-replaced del s c)

map-replaced_nil : (s : List ℕ) (c : ℕ) → map (replaced [] c) s ≡ s
map-replaced_nil [] c = refl
map-replaced_nil (x ∷ s) c = ap (λ t. x ∷ t) (map-replaced_nil s c)

replaced-cons :
    (d : ℕ) (del s : List ℕ) (c : ℕ)
    → contains c del ≡ false
    → map (replaced del c) (map (replaced (d ∷ []) c) s) ≡ map (replaced (d ∷ del) c) s
replaced-cons d del [] c h = refl
replaced-cons d del (x ∷ s) c h = ground (arith, replaced-cons d del s c)

delimit_loop_lem :
    (fuel : ℕ) (del s : List ℕ) (c : ℕ)
    → c ≢ 0
    → contains c del ≡ false
    → length s < fuel
    → delimit_loop fuel s del c ≡ some (map (replaced del c) s)
unfolding delimit_loop
delimit_loop_lem fuel [] s c z n h = ap some (sym (map-replaced_nil s c))
delimit_loop_lem fuel (d ∷ del) s c z n h = ground (
  arith,
  replace_loop_lem fuel s d c,
  count-le d s,
  length-replaced (d ∷ []) s c,
  delimit_loop_lem fuel del (map (replaced (d ∷ []) c) s) c,
  replaced-cons d del s c,
)

-- With more fuel than bytes, and a replacement that ends no text and is no delimiter, the loops end,
-- and every delimiter in the text is replaced.
pub strdelimit_lem :
    (fuel : ℕ) (del s : List ℕ) (c : ℕ)
    → c ≢ 0
    → contains c del ≡ false
    → length s < fuel
    → strdelimit fuel (some s) del c ≡ some (some (map (replaced del c) s))
unfolding strdelimit
strdelimit_lem fuel del [] c z n h = refl
strdelimit_lem fuel del (x ∷ s) c z n h = ground (arith, delimit_loop_lem fuel del (x ∷ s) c)

strchr-contains : (s : List ℕ) (d : ℕ) → contains d s ≡ true → strchr s d ≢ none
unfolding strchr
strchr-contains [] d h = ground arith
strchr-contains (x ∷ s) d h = ground (arith, strchr-contains s d)

replace_loop-same :
    (fuel : ℕ) (s : List ℕ) (d : ℕ) → d ≢ 0 → contains d s ≡ true → replace_loop fuel s d d ≡ none
unfolding replace_loop
replace_loop-same zero s d z h = refl
replace_loop-same (suc fuel) s d z h = elim (Option-cases (strchr s d)) [
  | inl e ↦ absurd (strchr-contains s d h e)
  | inr ((p, q), e) ↦ ground (arith, replace_loop-same fuel (d ∷ q) d)
]

-- Where the replacement is the first delimiter, and stands in the text, no fuel is enough: the loop
-- writes the byte that it looks for and finds it again.
pub strdelimit-same :
    (fuel : ℕ) (del s : List ℕ) (d : ℕ)
    → d ≢ 0
    → contains d s ≡ true
    → strdelimit fuel (some s) (d ∷ del) d ≡ none
unfolding strdelimit delimit_loop
strdelimit-same fuel del [] d z h = ground arith
strdelimit-same fuel del (x ∷ s) d z h = ground (arith, replace_loop-same fuel (x ∷ s) d)

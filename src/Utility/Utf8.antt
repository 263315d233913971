-- ===== src/Utility/Utf8.antt =====
-- `utf8_leng` against the encoding of code points.
use sws.Base.{
  ℕ, zero, suc, ◌+◌, ◌/◌, ◌%◌, ◌<◌, ◌≤◌, ◌≡◌, refl, ◌∙◌, Bool, true, false, Option, none, some,
  List, [], ◌∷◌, ◌++◌, if◌then◌else◌, ◌==◌, leb, ltb, length, Text, arith, Bool-cases, ◌⊎◌, inl,
  inr,
}
use sws.Utility.{skipped, leng_loop, utf8_leng}

-- UTF-8.
pub encode : ℕ → Text
encode c =
    if ltb c 0x80
    then c ∷ []
    else if ltb c 0x800
    then (0xC0 + c / 64) ∷ (0x80 + c % 64) ∷ []
    else if ltb c 0x10000
    then (0xE0 + c / 4096) ∷ (0x80 + c / 64 % 64) ∷ (0x80 + c % 64) ∷ []
    else (0xF0 + c / 262144) ∷ (0x80 + c / 4096 % 64) ∷ (0x80 + c / 64 % 64) ∷ (0x80 + c % 64) ∷ []

pub encode_all : List ℕ → Text
unfolding encode
encode_all [] = []
encode_all (c ∷ cs) = encode c ++ encode_all cs

abbrev pub AllScalar : List ℕ → Type 0
AllScalar [] = Unit
AllScalar (c ∷ cs) = (c < 0x110000) × AllScalar cs

-- The bytes skipped, by ranges: the byte 0x80 counts as a character of its own.
by_range : ℕ → Option ℕ
by_range c =
    if leb c 128
    then some 0
    else if ltb c 192
    then none
    else if ltb c 224
    then some 1
    else if ltb c 240
    then some 2
    else if ltb c 248
    then some 3
    else none

same_option : Option ℕ → Option ℕ → Bool
same_option none none = true
same_option none (some b) = false
same_option (some a) none = false
same_option (some a) (some b) = a == b

same_option→eq : (a b : Option ℕ) → same_option a b ≡ true → a ≡ b
unfolding same_option
same_option→eq none none h = refl
same_option→eq none (some b) h = ground arith
same_option→eq (some a) none h = ground arith
same_option→eq (some a) (some b) h = ground arith

-- Whether the two agree on the first bytes.
agrees : ℕ → Bool
agrees zero = true
agrees (suc k) = let rest = agrees k in if same_option (skipped k) (by_range k) then rest else false

agrees-by_range : (k c : ℕ) → c < k → agrees k ≡ true → skipped c ≡ by_range c
unfolding agrees
agrees-by_range zero c below e = absurd (omega arith)
agrees-by_range (suc k) c below e =
    ground (arith, agrees-by_range k c, same_option→eq (skipped k) (by_range k))

skipped-by_range : (c : ℕ) → c < 256 → skipped c ≡ by_range c
unfolding agrees same_option skipped by_range
skipped-by_range c h = agrees-by_range 256 c h refl

leng_loop-encode :
    (q c : ℕ) (s : Text) → c < 0x110000 → leng_loop q 0 (encode c ++ s) ≡ leng_loop (suc q) 0 s
unfolding leng_loop encode by_range
leng_loop-encode q c s h = ground (
  arith,
  skipped-by_range c,
  skipped-by_range (0xC0 + c / 64),
  skipped-by_range (0xE0 + c / 4096),
  skipped-by_range (0xF0 + c / 262144),
)

leng_loop-encode_all :
    (q : ℕ) (cs : List ℕ) → AllScalar cs → leng_loop q 0 (encode_all cs) ≡ q + length cs
unfolding encode_all leng_loop
leng_loop-encode_all q [] a = omega arith
leng_loop-encode_all q (c ∷ cs) a =
    leng_loop-encode q c (encode_all cs) a.0 ∙ leng_loop-encode_all (suc q) cs a.1 ∙ omega arith

-- The length of the encoding of code points below 0x110000 is how many there are.
pub utf8_leng-encode_all : (cs : List ℕ) → AllScalar cs → utf8_leng (encode_all cs) ≡ length cs
unfolding utf8_leng
utf8_leng-encode_all cs a = leng_loop-encode_all 0 cs a ∙ omega arith

-- The other continuation bytes end the count with 0, but 0x80 counts as a character: the test for
-- a single byte is `c <= 128`.
pub utf8_leng-continuation :
    (s : Text) (c : ℕ)
    → 0x80 ≤ c
    → c < 0xC0
    → ((c ≡ 0x80) × (utf8_leng (c ∷ s) ≡ leng_loop 1 0 s)) ⊎ (utf8_leng (c ∷ s) ≡ 0)
unfolding utf8_leng leng_loop by_range
utf8_leng-continuation s c l h = elim (Bool-cases (c == 0x80)) [
  | inl e ↦ inl (ground arith, ground (arith, skipped-by_range c))
  | inr e ↦ inr (ground (arith, skipped-by_range c))
]

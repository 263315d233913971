-- ===== src/Bluez/Ringbuf/Cycle.antt =====
-- Reading and storing bytes round the buffer.
use sws.Base.{
  ℕ, zero, suc, ◌+◌, ◌-◌, ◌<◌, ◌≤◌, ◌≡◌, ◌⊎◌, inl, inr, refl, sym, ap, ◌∙◌, true, List, [], ◌∷◌,
  ◌++◌, if◌then◌else◌, ◌==◌, ltb, length, length-set, get_or, get_or-set_self, get_or-set_ne,
  Bool-cases, set, arith,
}
use mathlib.Core.List.{append_assoc, append-nil}
use sws.Bluez.Ringbuf.{memcpy, scatter, slice, min}

-- The offset behind another.
abbrev pub wrap : ℕ → ℕ → ℕ
wrap size o = if o + 1 == size then 0 else o + 1

-- The offset `n` behind another, for `n` up to the size.
abbrev pub index : ℕ → ℕ → ℕ → ℕ
index size o n = if ltb (o + n) size then o + n else o + n - size

-- `n` bytes from `o` on, round the buffer.
abbrev pub bytes : List ℕ → ℕ → ℕ → ℕ → List ℕ
bytes b size o zero = []
bytes b size o (suc n) = get_or b o 0 ∷ bytes b size (wrap size o) n

abbrev pub store : List ℕ → ℕ → ℕ → List ℕ → List ℕ
store b size o [] = b
store b size o (x ∷ xs) = store (set b o x) size (wrap size o) xs

-- How far it is from one offset to another.
abbrev distance : ℕ → ℕ → ℕ → ℕ
distance size o k = if ltb k o then k + size - o else k - o

bytes-set :
    (b : List ℕ) (size o k n x : ℕ)
    → o < size
    → k < size
    → n ≤ distance size o k
    → bytes (set b k x) size o n ≡ bytes b size o n
bytes-set b size o k zero x ho hk hn = refl
bytes-set b size o k (suc n) x ho hk hn =
    ground (arith, get_or-set_ne b {i = k} {j = o} x 0, bytes-set b size (wrap size o) k n x)

bytes-suc :
    (b : List ℕ) (size o n : ℕ)
    → o < size
    → n < size
    → bytes b size o (suc n) ≡ bytes b size o n ++ get_or b (index size o n) 0 ∷ []
bytes-suc b size o zero ho hn = ground arith
bytes-suc b size o (suc n) ho hn = ground (arith, bytes-suc b size (wrap size o) n)

wrap-index :
    (size o n : ℕ) → o < size → n < size → wrap size (index size o n) ≡ index size o (suc n)
wrap-index size o n ho hn = ground arith

-- What is stored behind `n` bytes is read behind them.
pub bytes-store :
    (b : List ℕ) (size o n : ℕ) (s : List ℕ)
    → o < size
    → n + length s ≤ size
    → length b ≡ size
    → bytes (store b size (index size o n) s) size o (n + length s) ≡ bytes b size o n ++ s
bytes-store b size o n [] ho hn hb =
    ap (bytes b size o) (omega arith) ∙ sym (append-nil (bytes b size o n))
bytes-store b size o n (x ∷ xs) ho hn hb =
    ap (λ i. bytes (store b' size i xs) size o (n + suc (length xs)))
      (wrap-index size o n ho (omega arith))
    ∙ ap (bytes (store b' size (index size o (suc n)) xs) size o) (omega arith)
    ∙ bytes-store b' size o (suc n) xs ho (omega arith) (length-set b k x ∙ hb)
    ∙ ap (λ t. t ++ xs)
        (bytes-suc b' size o n ho (omega arith)
          ∙ rw
              (
                bytes-set b size o k n x ho (ground arith) (ground arith),
                get_or-set_self b k x 0 (ground arith),
              )
              refl)
    ∙ append_assoc (bytes b size o n) (x ∷ []) xs
  where
    k : ℕ
    k = index size o n

    b' : List ℕ
    b' = set b k x

memcpy-store :
    (b : List ℕ) (size o : ℕ) (s : List ℕ) → o + length s ≤ size → memcpy b o s ≡ store b size o s
unfolding memcpy
memcpy-store b size o [] h = refl
memcpy-store b size o (x ∷ []) h = refl
memcpy-store b size o (x ∷ y ∷ s) h = ground (arith, memcpy-store (set b o x) size (o + 1) (y ∷ s))

-- The two copies are one round the buffer.
pub scatter-store :
    (b : List ℕ) (size o end : ℕ) (s : List ℕ)
    → o < size
    → length s ≤ size
    → (end ≡ size - o) ⊎ ((length s ≤ end) × (end ≤ size - o))
    → scatter b o end s ≡ store b size o s
unfolding memcpy
scatter-store b size o zero [] ho hs h = refl
scatter-store b size o (suc end) [] ho hs h = refl
scatter-store b size o zero (x ∷ s) ho hs h = absurd (ground arith)
scatter-store b size o (suc end) (x ∷ s) ho hs h = elim (Bool-cases (o + 1 == size)) [
  | inl e ↦ last_place end (ground arith) e
  | inr e ↦ ground (arith, scatter-store (set b o x) size (o + 1) end s)
]
  where
    last_place :
        (end : ℕ)
        → end ≡ 0
        → (o + 1 == size) ≡ true
        → scatter (set b o x) (o + 1) end s ≡ store (set b o x) size (wrap size o) s
    last_place end z e = ground (arith, memcpy-store (set b o x) size 0 s)

slice-suc :
    (b : List ℕ) (o n : ℕ) → o < length b → slice b o (suc n) ≡ get_or b o 0 ∷ slice b (suc o) n
slice-suc [] o n h = absurd (omega arith)
slice-suc (x ∷ b) zero n h = refl
slice-suc (x ∷ b) (suc o) n h = slice-suc b o n (omega arith)

slice-bytes :
    (b : List ℕ) (size o n : ℕ) → o + n ≤ size → length b ≡ size → slice b o n ≡ bytes b size o n
slice-bytes b size o zero h l = refl
slice-bytes b size o (suc zero) h l = slice-suc b o 0 (omega arith)
slice-bytes b size o (suc (suc n)) h l =
    ground (arith, slice-suc b o (suc n), slice-bytes b size (suc o) (suc n))

-- The bytes round the buffer are those up to its end, and those from its beginning.
pub slices-bytes :
    (b : List ℕ) (size o n : ℕ)
    → o < size
    → n ≤ size
    → length b ≡ size
    → slice b o (min n (size - o)) ++ slice b 0 (n - min n (size - o)) ≡ bytes b size o n
slices-bytes b size o zero ho hn l = ground arith
slices-bytes b size o (suc n) ho hn l = elim (Bool-cases (o + 1 == size)) [
  | inl e ↦ ground (arith, slice-suc b o 0, slice-bytes b size 0 n)
  | inr e ↦ ground (arith, slice-suc b o (min n (size - suc o)), slices-bytes b size (suc o) n)
]

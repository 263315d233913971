-- ===== src/Bluez/Ringbuf/New.antt =====
-- The ring that `ringbuf_new` makes.
use sws.Base.{
  ℕ, zero, suc, ◌+◌, ◌*◌, ◌-◌, ◌/◌, ◌^◌, ◌<◌, ◌≤◌, ◌≡◌, ◌⊎◌, inl, inr, refl, ◌∙◌, false, ◌||◌,
  Option, none, some, List, [], ltb, length, arith, dec_lt, Option-cases,
}
use Prim.Native.Nat.{◌∣◌}
use native.Mathlib.Nat.{two-pow-succ, pow-succ', dvd_refl, dvd-mul_left_of_dvd}
use sws.Bluez.Ringbuf.{
  Ringbuf, Created, created, null, bits, fls, align_power2, ringbuf_new, ringbuf_len,
}
use sws.Bluez.Ringbuf.Shape.{IsRing, contents}

-- `bits` is the length of the number in binary.
bits-bounds :
    (fuel x : ℕ)
    → x < 2 ^ fuel
    → (x < 2 ^ bits fuel x)
      × (((x ≡ 0) × (bits fuel x ≡ 0)) ⊎ (2 ^ bits fuel x ≤ 2 * x))
      × (bits fuel x ≤ fuel)
unfolding bits
bits-bounds zero x h = (h, inl (omega arith, refl), omega arith)
bits-bounds (suc fuel) x h =
    ground (arith, bits-bounds fuel (x / 2), two-pow-succ fuel, two-pow-succ (bits fuel (x / 2)))

pow-dvd : (d k m : ℕ) → m ≡ d + k → 2 ^ k ∣ 2 ^ m
pow-dvd zero k m h = let e : m ≡ k = omega arith in rw e (dvd_refl (2 ^ k))
pow-dvd (suc d) k zero h = absurd (omega arith)
pow-dvd (suc d) k (suc m) h =
    rw (pow-succ' 2 m) (dvd-mul_left_of_dvd (2 ^ k) (pow-dvd d k m (omega arith)) 2)

small_power : (n s : ℕ) → n ≤ 32 → 2 ^ n ≤ 2 * s → s < 2 ^ 31 → n < 32
small_power n s h k l = elim (dec_lt n 32) [
  | yes p ↦ p
  | no p ↦
      let e : n ≡ 32 = omega arith in let k' : 2 ^ 32 ≤ 2 * s = rw e at k in absurd (omega arith)
]

-- The bits of one less than the size, for sizes from 2 to 2^31.
fls_lem :
    (size : ℕ)
    → 2 ≤ size
    → size ≤ 2 ^ 31
    → (fls (size - 1) < 32) × (size ≤ 2 ^ fls (size - 1)) × (2 ^ fls (size - 1) < 2 * size)
unfolding fls
fls_lem size h k =
    let (a, b, c) = bits-bounds 32 (size - 1) (omega arith) in
    let d : 2 ^ bits 32 (size - 1) ≤ 2 * (size - 1) = ground arith in
    (small_power (bits 32 (size - 1)) (size - 1) c d (omega arith), omega arith, omega arith)

-- For sizes from 2 to 2^31, `align_power2` is a power of two that is at least the size, and less than
-- twice of it.
align_power2_lem :
    (size : ℕ)
    → 2 ≤ size
    → size ≤ 2 ^ 31
    → (real : ℕ) × (align_power2 size ≡ some real)
      × (size ≤ real)
      × (real < 2 * size)
      × (real ∣ 2 ^ 64)
unfolding align_power2
align_power2_lem size h k =
    let (a, b, c) = fls_lem size h k in
    (
      2 ^ fls (size - 1),
      ground arith,
      b,
      c,
      pow-dvd (64 - fls (size - 1)) (fls (size - 1)) 64 (omega arith),
    )

abbrev new : ℕ → List ℕ → Ringbuf
new real buffer = record { buffer = buffer; size = real; in_ = 0; out = 0; in_tracing = false }

ringbuf_new-result :
    (content : ℕ → Option (List ℕ)) (size real : ℕ)
    → 2 ≤ size
    → size ≤ 2 ^ 31
    → align_power2 size ≡ some real
    → ringbuf_new content size
      ≡ elim (content real) as (λ o. Created) [ none ↦ null | some b ↦ created (new real b) ]
unfolding ringbuf_new
ringbuf_new-result content size real h k e =
    let t : (ltb size 2 || ltb (2 ^ 32 - 1) size) ≡ false = ground arith in rw (t, e) refl

new-IsRing :
    (b : List ℕ) (real : ℕ)
    → real ∣ 2 ^ 64
    → 0 < real
    → real < 2 ^ 32
    → length b ≡ real
    → IsRing (new real b) × (contents (new real b) ≡ [])
unfolding ringbuf_len
new-IsRing b real d p s l = (
  record {
    size_pos = p;
    size_small = s;
    divides = d;
    stored = l;
    in_small = omega arith;
    out_small = omega arith;
    held = omega arith;
  },
  refl,
)

-- For a size from 2 to 2^31 `ringbuf_new` makes an empty ring whose size is a power of two, no smaller
-- and less than twice as large, unless there is no memory for it.
pub ringbuf_new_lem :
    (content : ℕ → Option (List ℕ)) (size : ℕ)
    → ((n : ℕ) (b : List ℕ) → content n ≡ some b → length b ≡ n)
    → 2 ≤ size
    → size ≤ 2 ^ 31
    → (real : ℕ) × (size ≤ real)
      × (real < 2 * size)
      × (((content real ≡ none) × (ringbuf_new content size ≡ null))
          ⊎ ((r : Ringbuf) × (ringbuf_new content size ≡ created r)
              × (r.size ≡ real)
              × IsRing r
              × (contents r ≡ [])))
ringbuf_new_lem content size m h k =
    let (real, e, lo, hi, d) = align_power2_lem size h k in
    elim (Option-cases (content real)) [
      | inl f ↦ (real, lo, hi, inl (f, ringbuf_new-result content size real h k e ∙ rw f refl))
      | inr (b, f) ↦
          let (w, c) = new-IsRing b real d (omega arith) (omega arith) (m real b f) in
          (
            real,
            lo,
            hi,
            inr (new real b, ringbuf_new-result content size real h k e ∙ rw f refl, refl, w, c),
          )
    ]

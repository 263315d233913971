-- ===== src/Bluez/Ringbuf/Drain.antt =====
-- `ringbuf_drain` and `ringbuf_write` drop bytes from the front.
use sws.Base.{
  ℕ, zero, suc, ◌+◌, ◌-◌, ◌%◌, ◌^◌, ◌<◌, ◌≤◌, ◌≡◌, ◌⊎◌, inl, inr, refl, sym, ap, ◌∙◌, Option, none,
  some, List, [], ◌∷◌, ◌==◌, length, drop, arith, dec_lt, Bool-cases, Option-cases,
}
use native.Mathlib.Nat.{mod-lt, mod-add-mod, mod-mod_of_dvd}
use sws.Bluez.Ringbuf.{
  Ringbuf, min, plus, ringbuf_len, ringbuf_drain, ringbuf_write, consume, vectors,
}
use sws.Bluez.Ringbuf.Cycle.{bytes, index, wrap, slices-bytes}
use sws.Bluez.Ringbuf.Shape.{IsRing, contents, index-mod}

length-bytes : (b : List ℕ) (size o n : ℕ) → length (bytes b size o n) ≡ n
length-bytes b size o zero = refl
length-bytes b size o (suc n) = ap suc (length-bytes b size (wrap size o) n)

index-wrap :
    (size o n : ℕ) → o < size → suc n ≤ size → index size (wrap size o) n ≡ index size o (suc n)
index-wrap size o n ho hn = ground arith

drop-bytes :
    (b : List ℕ) (size o n m : ℕ)
    → o < size
    → n + m ≤ size
    → drop n (bytes b size o (n + m)) ≡ bytes b size (index size o n) m
drop-bytes b size o zero m ho hn = ground arith
drop-bytes b size o (suc n) m ho hn =
    ap (λ k. drop (suc n) (bytes b size o k)) {y = suc (n + m)} (omega arith)
    ∙ drop-bytes b size (wrap size o) n m (ground arith) (omega arith)
    ∙ ap (λ i. bytes b size i m) (index-wrap size o n ho (omega arith))

out-index :
    (r : Ringbuf) (n : ℕ)
    → IsRing r
    → n ≤ r.size
    → plus r.out n % r.size ≡ index r.size (r.out % r.size) n
out-index r n v h =
    mod-mod_of_dvd r.size (r.out + n) v.divides
    ∙ sym (mod-add-mod r.out r.size n)
    ∙ sym (index-mod r.size (r.out % r.size) n (mod-lt r.out v.size_pos) h)

drop-all : (n : ℕ) (s : List ℕ) → length s ≤ n → drop n s ≡ []
drop-all zero [] h = refl
drop-all zero (x ∷ s) h = absurd (omega arith)
drop-all (suc n) [] h = refl
drop-all (suc n) (x ∷ s) h = drop-all n s (omega arith)

consume_lem :
    (r : Ringbuf) (n : ℕ)
    → IsRing r
    → n ≤ ringbuf_len r
    → IsRing (consume r n) × (contents (consume r n) ≡ drop n (contents r))
unfolding consume ringbuf_len
consume_lem r n v h = elim (Bool-cases (plus r.out n == r.in_)) [
  | inl e ↦ rw e (
    record {
      size_pos = v.size_pos;
      size_small = v.size_small;
      divides = v.divides;
      stored = v.stored;
      in_small = omega arith;
      out_small = omega arith;
      held = omega arith;
    },
    sym (
        drop-all n (contents r) (
          rw (length-bytes r.buffer r.size (r.out % r.size) (ringbuf_len r))
            (ground (arith, v.in_small, v.out_small)))),
  )
  | inr e ↦ rw e (
    record {
      size_pos = v.size_pos;
      size_small = v.size_small;
      divides = v.divides;
      stored = v.stored;
      in_small = v.in_small;
      out_small = omega arith;
      held = omega (arith, v.in_small, v.out_small, v.held, v.size_small);
    },
    ap (λ k. bytes r.buffer r.size k m) (out-index r n v (omega (arith, v.held)))
        ∙ ap (bytes r.buffer r.size (index r.size (r.out % r.size) n)) {y = ringbuf_len r - n}
            (omega (arith, v.in_small, v.out_small))
        ∙ sym (
            drop-bytes r.buffer r.size (r.out % r.size) n (ringbuf_len r - n)
              (mod-lt r.out v.size_pos) (omega (arith, v.held)))
        ∙ ap (λ k. drop n (bytes r.buffer r.size (r.out % r.size) k)) (omega arith),
  )
]
  where
    m : ℕ
    m = (r.in_ + 2 ^ 64 - plus r.out n) % 2 ^ 64

drop-min : (n : ℕ) (s : List ℕ) → drop (min n (length s)) s ≡ drop n s
drop-min n s = elim (dec_lt n (length s)) [
  | yes h ↦ ground arith
  | no h ↦ ground (arith, drop-all (length s) s (omega arith), drop-all n s (omega arith))
]

length-contents : (r : Ringbuf) → length (contents r) ≡ ringbuf_len r
length-contents r = length-bytes r.buffer r.size (r.out % r.size) (ringbuf_len r)

-- Draining drops as many bytes from the front as asked for, or all where there are fewer, and returns
-- how many.
pub ringbuf_drain_lem :
    (r : Ringbuf) (count : ℕ)
    → IsRing r
    → IsRing (ringbuf_drain r count).0
      × (contents (ringbuf_drain r count).0 ≡ drop count (contents r))
      × ((ringbuf_drain r count).1 ≡ min count (length (contents r)))
unfolding ringbuf_drain
ringbuf_drain_lem r count v = elim (Bool-cases (min count (ringbuf_len r) == 0)) [
  | inl e ↦ rw e (
    v,
    ap (λ n. drop n (contents r)) {x = 0} {y = min count (length (contents r))}
          (ground (arith, length-contents r))
        ∙ drop-min count (contents r),
    ground (arith, length-contents r),
  )
  | inr e ↦
      let (w, c) = consume_lem r (min count (ringbuf_len r)) v (ground arith) in
      rw e (
        w,
        c
            ∙ ap (λ n. drop (min count n) (contents r)) (sym (length-contents r))
            ∙ drop-min count (contents r),
        ap (min count) (sym (length-contents r)),
      )
]

vectors_lem : (r : Ringbuf) → IsRing r → vectors r ≡ contents r
unfolding vectors
vectors_lem r v =
    slices-bytes r.buffer r.size (r.out % r.size) (ringbuf_len r) (mod-lt r.out v.size_pos) v.held
      v.stored

-- `writev` is given exactly the bytes in the ring, and those that it takes are dropped. Where there are
-- none it is not called, and where it fails the ring is left.
pub ringbuf_write_lem :
    (r : Ringbuf) (accept : List ℕ → Option ℕ)
    → IsRing r
    → ((n : ℕ) → accept (contents r) ≡ some n → n ≤ length (contents r))
    → ((contents r ≡ []) × (ringbuf_write accept r ≡ (r, some 0)))
      ⊎ ((accept (contents r) ≡ none) × (ringbuf_write accept r ≡ (r, none)))
      ⊎ ((n : ℕ) × (r' : Ringbuf) × (accept (contents r) ≡ some n)
          × (ringbuf_write accept r ≡ (r', some n))
          × IsRing r'
          × (contents r' ≡ drop n (contents r)))
unfolding ringbuf_write
ringbuf_write_lem r accept v h = elim (Bool-cases (ringbuf_len r == 0)) [
  | inl e ↦ inl (ap (bytes r.buffer r.size (r.out % r.size)) {y = 0} (ground arith), rw e refl)
  | inr e ↦ elim (Option-cases (accept (contents r))) [
    | inl f ↦ inr (inl (f, rw (e, vectors_lem r v, f) refl))
    | inr (n, f) ↦
        let (w, c) = consume_lem r n v (omega (arith, h n f, length-contents r)) in
        inr (inr (n, consume r n, f, rw (e, vectors_lem r v, f) refl, w, c))
  ]
]

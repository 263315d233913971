-- ===== src/Bluez/Ringbuf/Shape.antt =====
-- What holds of a ring between two calls, and what storing bytes in it leaves.
use sws.Base.{
  ℕ, ◌+◌, ◌-◌, ◌%◌, ◌^◌, ◌<◌, ◌≤◌, ◌≡◌, refl, sym, ap, ◌∙◌, List, [], ◌∷◌, ◌++◌, length, length-set,
  set, arith, dec_lt,
}
use Prim.Native.Nat.{◌∣◌}
use native.Mathlib.Nat.{mod-eq-sub-mod, mod-eq_of_lt, mod-add-mod, mod-mod_of_dvd, mod-lt}
use sws.Bluez.Ringbuf.{Ringbuf, plus, ringbuf_len, ringbuf_avail}
use sws.Bluez.Ringbuf.Cycle.{bytes, store, index, bytes-store}

pub record IsRing (r : Ringbuf) : Type 0 where
  pub size_pos : 0 < r.size
  pub size_small : r.size < 2 ^ 32
  pub divides : r.size ∣ 2 ^ 64
  pub stored : length r.buffer ≡ r.size
  pub in_small : r.in_ < 2 ^ 64
  pub out_small : r.out < 2 ^ 64
  pub held : ringbuf_len r ≤ r.size

-- The bytes in the ring, in order.
abbrev pub contents : Ringbuf → List ℕ
contents r = bytes r.buffer r.size (r.out % r.size) (ringbuf_len r)

pub avail-len : (r : Ringbuf) → IsRing r → ringbuf_avail r ≡ r.size - ringbuf_len r
unfolding ringbuf_avail ringbuf_len
avail-len r v = let h = v.held in omega (arith, v.in_small, v.out_small, v.size_small, v.held)

pub index-mod : (size o n : ℕ) → o < size → n ≤ size → index size o n ≡ (o + n) % size
index-mod size o n ho hn = elim (dec_lt (o + n) size) [
  | yes h ↦ ground (arith, mod-eq_of_lt {n = o + n} {m = size} h)
  | no h ↦ ground (
    arith,
    mod-eq-sub-mod {n = o + n} {m = size} (omega arith),
    mod-eq_of_lt {n = o + n - size} {m = size} (omega arith),
  )
]

len-out : (r : Ringbuf) → IsRing r → (r.out + ringbuf_len r) % 2 ^ 64 ≡ r.in_
unfolding ringbuf_len
len-out r v = omega (arith, v.in_small, v.out_small)

-- What is stored behind the bytes that are held starts at the offset of `in`.
pub in_-index :
    (r : Ringbuf) → IsRing r → r.in_ % r.size ≡ index r.size (r.out % r.size) (ringbuf_len r)
in_-index r v =
    ap (λ t. t % r.size) (sym (len-out r v))
    ∙ mod-mod_of_dvd r.size (r.out + ringbuf_len r) v.divides
    ∙ sym (mod-add-mod r.out r.size (ringbuf_len r))
    ∙ sym (index-mod r.size (r.out % r.size) (ringbuf_len r) (mod-lt r.out v.size_pos) v.held)

pub length-store : (b : List ℕ) (size o : ℕ) (s : List ℕ) → length (store b size o s) ≡ length b
length-store b size o [] = refl
length-store b size o (x ∷ s) = length-store (set b o x) size _ s ∙ length-set b o x

abbrev pub stored_ring : Ringbuf → List ℕ → Ringbuf
stored_ring r s = record r {
  buffer = store r.buffer r.size (r.in_ % r.size) s;
  in_ = plus r.in_ (length s);
}

len-stored :
    (r : Ringbuf) (s : List ℕ)
    → IsRing r
    → ringbuf_len r + length s ≤ r.size
    → ringbuf_len (stored_ring r s) ≡ ringbuf_len r + length s
unfolding ringbuf_len
len-stored r s v h = omega (arith, v.in_small, v.out_small, v.size_small, h)

-- Storing as many bytes as there is room for.
pub stored_ring_lem :
    (r : Ringbuf) (s : List ℕ)
    → IsRing r
    → ringbuf_len r + length s ≤ r.size
    → IsRing (stored_ring r s) × (contents (stored_ring r s) ≡ contents r ++ s)
stored_ring_lem r s v h = (
  record {
    size_pos = v.size_pos;
    size_small = v.size_small;
    divides = v.divides;
    stored = length-store r.buffer r.size (r.in_ % r.size) s ∙ v.stored;
    in_small = omega arith;
    out_small = v.out_small;
    held = rw (len-stored r s v h) h;
  },
  rw (len-stored r s v h, in_-index r v)
      (bytes-store r.buffer r.size (r.out % r.size) (ringbuf_len r) s (mod-lt r.out v.size_pos) h
        v.stored),
)

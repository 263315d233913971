-- ===== src/Bluez/Ringbuf/Store.antt =====
-- `ringbuf_vprintf` and `ringbuf_read` append to the bytes in the ring.
use sws.Base.{
  ℕ, ◌+◌, ◌-◌, ◌%◌, ◌<◌, ◌≤◌, ◌≡◌, ◌⊎◌, inl, inr, ap, Option, none, some, List, [], ◌++◌, length,
  take, drop, arith, dec_lt,
}
use native.Mathlib.Nat.{mod-lt}
use sws.Bluez.Ringbuf.{
  Ringbuf, min, plus, scatter, traces, ringbuf_len, ringbuf_vprintf, ringbuf_read,
}
use sws.Bluez.Ringbuf.Cycle.{scatter-store}
use sws.Bluez.Ringbuf.Shape.{IsRing, contents, stored_ring, stored_ring_lem, avail-len}

-- How many bytes there is room for.
abbrev pub room : Ringbuf → ℕ
room r = r.size - ringbuf_len r

-- What is traced when at most `n` bytes are stored, and `s` are.
abbrev pub traced : Ringbuf → ℕ → List ℕ → List (List ℕ)
traced r n s =
    let end = min n (r.size - r.in_ % r.size) in traces r.in_tracing (take end s) (drop end s)

-- The ring with the bytes stored in two copies, the first of at most `end`.
abbrev copied : Ringbuf → ℕ → List ℕ → Ringbuf
copied r end s = record r {
  buffer = scatter r.buffer (r.in_ % r.size) end s;
  in_ = plus r.in_ (length s);
}

copied_lem :
    (r : Ringbuf) (n : ℕ) (s : List ℕ)
    → IsRing r
    → length s ≤ n
    → n ≤ room r
    → copied r (min n (r.size - r.in_ % r.size)) s ≡ stored_ring r s
copied_lem r n s v h k =
    ap (λ b. record r { buffer = b; in_ = plus r.in_ (length s) })
      (scatter-store r.buffer r.size (r.in_ % r.size) (min n (r.size - r.in_ % r.size)) s
        (mod-lt r.in_ v.size_pos) (omega arith) (ground arith))

room_for : (r : Ringbuf) (n : ℕ) → IsRing r → n ≤ room r → ringbuf_len r + n ≤ r.size
room_for r n v h = omega (arith, v.held)

-- A text that fits in the ring is appended to its bytes, and its length returned; where it is longer,
-- or the ring is full, the ring is left and the result is -1.
pub ringbuf_vprintf_lem :
    (r : Ringbuf) (s : List ℕ)
    → IsRing r
    → ((0 < room r)
        × (length s ≤ room r)
        × (r' : Ringbuf) × (ringbuf_vprintf (some s) r
            ≡ (r', some (length s), traced r (length s) s))
        × IsRing r'
        × (contents r' ≡ contents r ++ s))
      ⊎ (((room r ≡ 0) ⊎ (room r < length s)) × (ringbuf_vprintf (some s) r ≡ (r, none, [])))
unfolding ringbuf_vprintf
ringbuf_vprintf_lem r s v = elim (dec_lt (room r) (length s)) [
  | yes h ↦ inr (inr h, ground (arith, avail-len r v))
  | no h ↦ elim (dec_lt 0 (room r)) [
    | no k ↦ inr (inl (omega arith), ground (arith, avail-len r v))
    | yes k ↦
        let (w, c) = stored_ring_lem r s v (room_for r (length s) v (omega arith)) in
        inl (
          k,
          omega arith,
          stored_ring r s,
          rw (avail-len r v)
              (ground (arith, copied_lem r (length s) s v (omega arith) (omega arith))),
          w,
          c,
        )
  ]
]

-- What is read while there is room, no more than was asked for, is appended to the bytes in the ring.
pub ringbuf_read_lem :
    (r : Ringbuf) (received : ℕ → Option (List ℕ)) (s : List ℕ)
    → IsRing r
    → 0 < room r
    → received (room r) ≡ some s
    → length s ≤ room r
    → (r' : Ringbuf) × (ringbuf_read received r ≡ (r', some (length s), traced r (room r) s))
      × IsRing r'
      × (contents r' ≡ contents r ++ s)
unfolding ringbuf_read
ringbuf_read_lem r received s v k e h =
    let (w, c) = stored_ring_lem r s v (room_for r (length s) v h) in
    (
      stored_ring r s,
      rw (avail-len r v, e, avail-len r v)
          (ground (arith, copied_lem r (room r) s v h (omega arith))),
      w,
      c,
    )

-- ===== src/Bluez/Ringbuf.antt =====
-- include/src/shared/ringbuf.c: a ring of bytes, with counters that only a draining reset sets back.
--
-- The counters are size_t and wrap at 2^64. `& (size - 1)` is `% size`, since a size is a power of two.
-- The result -1 is `none`. `readv`, `writev` and `vasprintf` are the arguments `received`, `accept`
-- and `str`. The operations are those on a ring that is not NULL, with a file that is open; where NULL
-- is an argument it is `none`.
pub mod Cycle
pub mod Shape
pub mod Store
pub mod Drain
pub mod New
use sws.Base.{
  ℕ, zero, suc, ◌+◌, ◌-◌, ◌/◌, ◌%◌, ◌^◌, Bool, true, false, not, ◌||◌, Option, none, some, List, [],
  ◌∷◌, ◌++◌, if◌then◌else◌, ◌==◌, ltb, length, set, take, drop, replicate,
}

pub record Ringbuf : Type 0 where
  pub buffer : List ℕ
  pub size : ℕ
  pub in_ : ℕ
  pub out : ℕ
  -- whether `in_tracing` is set
  pub in_tracing : Bool

-- A difference, and a sum, of values of size_t.
abbrev pub minus : ℕ → ℕ → ℕ
minus a b = (a + 2 ^ 64 - b) % 2 ^ 64

abbrev pub plus : ℕ → ℕ → ℕ
plus a b = (a + b) % 2 ^ 64

abbrev pub min : ℕ → ℕ → ℕ
min x y = if ltb x y then x else y

-- `fls`, the number of bits of an unsigned int; 32 rounds are enough for it.
unfoldable pub bits : ℕ → ℕ → ℕ
bits zero x = 0
bits (suc fuel) x = let n = bits fuel (x / 2) in if x == 0 then 0 else suc n

unfoldable pub fls : ℕ → ℕ
fls x = bits 32 x

-- A shift of an int by 32 is undefined: `none`.
unfoldable pub align_power2 : ℕ → Option ℕ
align_power2 u = if ltb (fls (u - 1)) 32 then some (2 ^ fls (u - 1)) else none

-- The results of `ringbuf_new`: NULL, undefined behaviour, or a ring. `content` is what `malloc`
-- returns memory with, or nothing where it fails.
pub data Created : Type 0 where
  null undefined : Created
  created : Ringbuf → Created

unfoldable pub ringbuf_new : (content : ℕ → Option (List ℕ)) → ℕ → Created
ringbuf_new content size =
    if ltb size 2 || ltb (2 ^ 32 - 1) size then null else elim (align_power2 size) [
      | none ↦ undefined
      | some real_size ↦ elim (content real_size) [
        | none ↦ null
        | some buffer ↦
            created
              (record { buffer = buffer; size = real_size; in_ = 0; out = 0; in_tracing = false })
      ]
    ]

unfoldable pub ringbuf_set_input_tracing : Option Ringbuf → Bool → Option Ringbuf × Bool
ringbuf_set_input_tracing none callback = (none, false)
ringbuf_set_input_tracing (some r) callback = (some (record r { in_tracing = callback }), true)

unfoldable pub ringbuf_capacity : Option Ringbuf → ℕ
ringbuf_capacity none = 0
ringbuf_capacity (some r) = r.size

unfoldable pub ringbuf_len : Ringbuf → ℕ
ringbuf_len r = minus r.in_ r.out

unfoldable pub ringbuf_avail : Ringbuf → ℕ
ringbuf_avail r = plus (minus r.size r.in_) r.out

-- `out += len`, and the reset where that reaches `in`.
unfoldable pub consume : Ringbuf → ℕ → Ringbuf
consume r n =
    if plus r.out n == r.in_ then record r { in_ = 0; out = 0 } else record r { out = plus r.out n }

unfoldable pub ringbuf_drain : Ringbuf → ℕ → Ringbuf × ℕ
ringbuf_drain r count =
    let len = min count (ringbuf_len r) in if len == 0 then (r, 0) else (consume r len, len)

-- The offset in the buffer that is returned, and the number of bytes up to its end.
unfoldable pub ringbuf_peek : Ringbuf → ℕ → ℕ × ℕ
ringbuf_peek r offset =
    let offset' = plus r.out offset % r.size in (offset', min (ringbuf_len r) (r.size - offset'))

-- `n` bytes of the memory from `offset` on.
abbrev pub slice : List ℕ → ℕ → ℕ → List ℕ
slice b offset n = take n (drop offset b)

-- The bytes of the two vectors that `writev` is given.
unfoldable pub vectors : Ringbuf → List ℕ
vectors r =
    let len = ringbuf_len r in
    let offset = r.out % r.size in
    let end = min len (r.size - offset) in slice r.buffer offset end ++ slice r.buffer 0 (len - end)

-- `writev` gets the bytes, and answers how many it has taken.
unfoldable pub ringbuf_write : (accept : List ℕ → Option ℕ) → Ringbuf → Ringbuf × Option ℕ
ringbuf_write accept r = if ringbuf_len r == 0 then (r, some 0) else elim (accept (vectors r)) [
  | none ↦ (r, none)
  | some consumed ↦ (consume r consumed, some consumed)
]

unfoldable pub memcpy : List ℕ → ℕ → List ℕ → List ℕ
memcpy b offset [] = b
memcpy b offset (x ∷ xs) = memcpy (set b offset x) (offset + 1) xs

-- The bytes stored from `offset` on, and behind `end` of them from the beginning.
abbrev pub scatter : List ℕ → ℕ → ℕ → List ℕ → List ℕ
scatter b offset end s = memcpy (memcpy b offset (take end s)) 0 (drop end s)

-- What `in_tracing` is called with.
abbrev pub traces : Bool → List ℕ → List ℕ → List (List ℕ)
traces false s t = []
traces true s [] = s ∷ []
traces true s (x ∷ t) = s ∷ (x ∷ t) ∷ []

-- `ringbuf_vprintf`, given the text that `vasprintf` makes: the ring, the result, and the traces.
unfoldable pub ringbuf_vprintf :
    (str : Option (List ℕ)) → Ringbuf → Ringbuf × Option ℕ × List (List ℕ)
ringbuf_vprintf none r = (r, none, [])
ringbuf_vprintf (some s) r =
    let offset = r.in_ % r.size in
    let end = min (length s) (r.size - offset) in
    if ringbuf_avail r == 0 || ltb (ringbuf_avail r) (length s) then (r, none, []) else (
      record r { buffer = scatter r.buffer offset end s; in_ = plus r.in_ (length s) },
      some (length s),
      traces r.in_tracing (take end s) (drop end s),
    )

-- `readv` is told how many bytes there is room for, and answers what it has read.
unfoldable pub ringbuf_read :
    (received : ℕ → Option (List ℕ)) → Ringbuf → Ringbuf × Option ℕ × List (List ℕ)
ringbuf_read received r =
    let avail = ringbuf_avail r in
    let offset = r.in_ % r.size in
    let end = min avail (r.size - offset) in
    if avail == 0 then (r, none, []) else elim (received avail) [
      | none ↦ (r, none, [])
      | some s ↦ (
        record r { buffer = scatter r.buffer offset end s; in_ = plus r.in_ (length s) },
        some (length s),
        traces r.in_tracing (take end s) (drop end s),
      )
    ]

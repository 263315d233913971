-- ===== src/Md5.antt =====
-- include/md5.h: the class MD5, whose digest of a file the catalogue keeps.
--
-- Its words are of the type `unsigned long int`, with as many bits as the machine gives them.
pub mod Table
pub mod Absorb
pub mod Blocks
pub mod Buffer
pub mod Stream
pub mod Digest
use Prim.Native.Nat.{bit_and, bit_or, bit_xor}
use sws.Base.{
  ℕ, zero, suc, ◌+◌, ◌-◌, ◌*◌, ◌/◌, ◌%◌, ◌^◌, ◌==◌, ltb, leb, if◌then◌else◌, Option, none, some,
  List, [], ◌∷◌, ◌++◌, length, take, drop, replicate, get_or, Text, ◌>>=◌,
}
use Table.{Round, ff, gg, hh, ii, Operation, operations}

pub record State : Type 0 where
  pub a : ℕ
  pub b : ℕ
  pub c : ℕ
  pub d : ℕ

-- `Decode`, and `Encode`, which writes the low 32 bits of each word.
unfoldable pub decode : List ℕ → List ℕ
decode (b0 ∷ b1 ∷ b2 ∷ b3 ∷ input) =
    bit_or b0 (bit_or (b1 * 2 ^ 8) (bit_or (b2 * 2 ^ 16) (b3 * 2 ^ 24))) ∷ decode input
decode _ = []

unfoldable pub encode : List ℕ → List ℕ
encode [] = []
encode (w ∷ input) = w % 256 ∷ w / 2 ^ 8 % 256 ∷ w / 2 ^ 16 % 256 ∷ w / 2 ^ 24 % 256 ∷ encode input

-- `context`. The buffer is not set by `Init`.
pub record Context : Type 0 where
  pub state : State
  pub count0 : ℕ
  pub count1 : ℕ
  pub buffer : List ℕ

unfoldable pub initial_state : State
initial_state = record { a = 0x67452301; b = 0xefcdab89; c = 0x98badcfe; d = 0x10325476 }

unfoldable pub init : Context → Context
init x = record x { state = initial_state; count0 = 0; count1 = 0 }

-- `memcpy(&buffer[index], bytes, length)`
abbrev pub copied_to : ℕ → List ℕ → List ℕ → List ℕ
copied_to index bytes buffer = take index buffer ++ (bytes ++ drop (index + length bytes) buffer)

-- The 64 bytes PADDING
abbrev pub padding : List ℕ
padding = 0x80 ∷ replicate 63 0

-- An `unsigned long` has `W` bits.
module _ (W : ℕ) where
  abbrev add : ℕ → ℕ → ℕ
  add x y = (x + y) % 2 ^ W

  abbrev complement : ℕ → ℕ
  complement x = 2 ^ W - 1 - x

  unfoldable pub rotate_left : ℕ → ℕ → ℕ
  rotate_left x n = bit_or (x * 2 ^ n % 2 ^ W) (x / 2 ^ (32 - n))

  unfoldable pub mixed : Round → ℕ → ℕ → ℕ → ℕ
  mixed ff x y z = bit_or (bit_and x y) (bit_and (complement x) z)
  mixed gg x y z = bit_or (bit_and x z) (bit_and y (complement z))
  mixed hh x y z = bit_xor x (bit_xor y z)
  mixed ii x y z = bit_xor y (bit_or x (complement z))

  -- One line, behind which the variables have moved on by one.
  unfoldable pub apply_operation : List ℕ → State → Operation → State
  unfolding rotate_left mixed
  apply_operation x s r =
      let sum = add s.a (add (add (mixed r.round s.b s.c s.d) (get_or x r.word 0)) r.constant) in
      record { a = s.d; b = add (rotate_left sum r.shift) s.b; c = s.b; d = s.c }

  unfoldable pub apply_operations : List ℕ → List Operation → State → State
  apply_operations x [] s = s
  apply_operations x (r ∷ rs) s = apply_operations x rs (apply_operation x s r)

  -- `MD5Transform`
  unfoldable pub transform : State → List ℕ → State
  unfolding apply_operations operations decode
  transform s block =
      let t = apply_operations (decode block) operations s in
      record { a = add s.a t.a; b = add s.b t.b; c = add s.c t.c; d = add s.d t.d }

  -- The loop of `Update`, on fuel, with 32-bit indices: the state and the index behind it. None is the
  -- read behind the input, or that the fuel runs out.
  unfoldable pub blocks : ℕ → State → List ℕ → ℕ → Option (State × ℕ)
  blocks zero s input n = none
  blocks (suc fuel) s input n =
      let rest = blocks fuel (transform s (take 64 (drop n input))) input ((n + 64) % 2 ^ 32) in
      if ltb ((n + 63) % 2 ^ 32) (length input)
      then (if leb (n + 64) (length input) then rest else none)
      else some (s, n)

  -- `Update`, for an input of fewer than 2 ^ 32 bytes.
  unfoldable pub update : Context → List ℕ → Option Context
  update x input =
      let len = length input in
      let index = x.count0 / 8 % 64 in
      let bits = len * 8 % 2 ^ W in
      let count0 = add x.count0 bits in
      let count1 = if ltb count0 bits then add x.count1 1 else x.count1 in
      let part_len = 64 - index in
      let counted = record x { count0 = count0; count1 = add count1 (len / 2 ^ 29) } in
      if leb part_len len
      then (do
        let filled = copied_to index (take part_len input) x.buffer
        done ← blocks (suc len) (transform x.state filled) input part_len
        some (record counted { state = done.0; buffer = copied_to 0 (drop done.1 input) filled }))
      else some (record counted { buffer = copied_to index input x.buffer })

  -- `Final`, up to the text: the digest of 16 bytes.
  unfoldable pub final : Context → Option (List ℕ)
  final x = do
    let bits = encode (x.count0 ∷ x.count1 ∷ [])
    let index = x.count0 / 8 % 64
    let pad_len = if ltb index 56 then 56 - index else 120 - index
    padded ← update x (take pad_len padding)
    ended ← update padded bits
    some (encode (ended.state.a ∷ ended.state.b ∷ ended.state.c ∷ ended.state.d ∷ []))

  -- The loop of `digestFile`, over what `fread` yields until it yields nothing.
  unfoldable pub update_all : Context → List (List ℕ) → Option Context
  update_all x [] = some x
  update_all x (c ∷ cs) = do y ← update x c; update_all y cs

abbrev hex_char : ℕ → ℕ
hex_char n = if ltb n 10 then n + 48 else n + 87

-- `writeToString`
unfoldable pub write_to_string : List ℕ → Text
write_to_string [] = []
write_to_string (n ∷ ns) = hex_char (n / 16) ∷ hex_char (n % 16) ∷ write_to_string ns

-- `digestFile`, where the file can be opened, and `digestMemory`. The context is that of the memory.
unfoldable pub digest_file : ℕ → Context → List (List ℕ) → Option Text
unfolding init write_to_string
digest_file W raw chunks = do
  x ← update_all W (init raw) chunks
  raw_digest ← final W x
  some (write_to_string raw_digest)

unfoldable pub digest_memory : ℕ → Context → List ℕ → Option Text
unfolding init write_to_string
digest_memory W raw bytes = do
  x ← update W (init raw) bytes
  raw_digest ← final W x
  some (write_to_string raw_digest)

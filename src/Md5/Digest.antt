-- ===== src/Md5/Digest.antt =====
-- The digest of a file: `digestFile` and `digestMemory` of the class MD5.
use sws.Base.{
  Bool, true, ◌&&◌, ◌||◌, leb, Text, ℕ, zero, suc, ◌+◌, ◌-◌, ◌*◌, ◌/◌, ◌%◌, ◌^◌, ◌<◌, ◌≤◌, ◌≡◌,
  refl, ap, sym, ◌∙◌, if◌then◌else◌, ltb, some, List, [], ◌∷◌, ◌++◌, length, length-replicate, take,
  replicate, arith, joined,
}
use sws.Md5.{
  State, Context, initial_state, init, update, update_all, final, padding, encode, write_to_string,
  digest_file, digest_memory,
}
use sws.Md5.Absorb.{Absorbed, absorb, absorb-append}
use sws.Md5.Stream.{Holds, update-Holds, update_all-Holds}

-- So many bytes of a number, the lowest first.
abbrev pub little : ℕ → ℕ → List ℕ
little zero v = []
little (suc k) v = v % 256 ∷ little k (v / 256)

-- The bytes behind a text of this length: a bit, zeros up to 8 bytes before the end of a block, and the
-- number of bits.
abbrev pub pad : ℕ → List ℕ
pad n = 0x80 ∷ replicate ((119 - n % 64) % 64) 0

abbrev pub whole : List ℕ → List ℕ
whole m = m ++ (pad (length m) ++ little 8 (length m * 8))

-- The digest of a text: the state behind all of it.
abbrev pub written : State → List ℕ
written s = encode (s.a ∷ s.b ∷ s.c ∷ s.d ∷ [])

abbrev pub digest : ℕ → List ℕ → List ℕ
digest W m = written (absorb W (initial_state, []) (whole m)).0

take-replicate : (k n : ℕ) → k ≤ n → take {A = ℕ} k (replicate n 0) ≡ replicate k 0
take-replicate zero n h = refl
take-replicate (suc k) zero h = absurd (omega arith)
take-replicate (suc k) (suc n) h = ap (λ ys. 0 ∷ ys) (take-replicate k n (omega arith))

encode-little : (n : ℕ) → n * 8 < 2 ^ 32 → encode (n * 8 ∷ 0 ∷ []) ≡ little 8 (n * 8)
unfolding encode
encode-little n h = ground arith

abbrev pad_length : ℕ → ℕ
pad_length index = if ltb index 56 then 56 - index else 120 - index

take-suc : (k m : ℕ) → m ≡ suc k → k ≤ 63 → take m padding ≡ 0x80 ∷ replicate k 0
take-suc k m e h = rw e (ap (λ ys. 0x80 ∷ ys) (take-replicate k 63 h))

take-padding : (n : ℕ) → take (pad_length (n % 64)) padding ≡ pad n
take-padding n = take-suc ((119 - n % 64) % 64) (pad_length (n % 64)) (ground arith) (omega arith)

init-Holds : (raw : Context) → length raw.buffer ≡ 64 → Holds (init raw) (initial_state, []) 0
unfolding init
init-Holds raw h = record {
  state = refl;
  count0 = refl;
  count1 = refl;
  size = h;
  pending = refl;
  index = refl;
}

-- A text of hexadecimal digits, with the small letters.
abbrev pub is_hex : Text → Bool
is_hex [] = true
is_hex (c ∷ t) = ((leb 48 c && leb c 57) || (leb 97 c && leb c 102)) && is_hex t

abbrev are_bytes : List ℕ → Bool
are_bytes [] = true
are_bytes (b ∷ bs) = ltb b 256 && are_bytes bs

is_hex-write_to_string :
    (bs : List ℕ)
    → are_bytes bs ≡ true
    → (is_hex (write_to_string bs) ≡ true) × (length (write_to_string bs) ≡ length bs * 2)
unfolding write_to_string
is_hex-write_to_string [] h = (refl, refl)
is_hex-write_to_string (b ∷ bs) h =
    let (p, q) = is_hex-write_to_string bs (ground arith) in (ground (arith, p), omega (arith, q))

is_byte : (v : ℕ) → ltb (v % 256) 256 ≡ true
is_byte v = ground arith

are_bytes-encode : (ws : List ℕ) → are_bytes (encode ws) ≡ true
unfolding encode
are_bytes-encode [] = refl
are_bytes-encode (w ∷ ws) =
    rw (is_byte w, is_byte (w / 2 ^ 8), is_byte (w / 2 ^ 16), is_byte (w / 2 ^ 24))
      (are_bytes-encode ws)

are_bytes-written : (s : State) → (are_bytes (written s) ≡ true) × (length (written s) ≡ 16)
unfolding encode
are_bytes-written s = (are_bytes-encode (s.a ∷ s.b ∷ s.c ∷ s.d ∷ []), refl)

module _ (W : ℕ) (wide : 32 ≤ W) where
  final-steps :
      (x y z : Context) (pd bits : List ℕ)
      → take (pad_length (x.count0 / 8 % 64)) padding ≡ pd
      → encode (x.count0 ∷ x.count1 ∷ []) ≡ bits
      → update W x pd ≡ some y
      → update W y bits ≡ some z
      → final W x ≡ some (written z.state)
  unfolding final
  final-steps x y z pd bits a b e f = rw (final, a, b, e) (rw f refl)

  final_lem :
      (x : Context) (r : Absorbed) (n : ℕ)
      → Holds x r n
      → n + 72 < 2 ^ 29
      → final W x ≡ some (written (absorb W r (pad n ++ little 8 (n * 8))).0)
  final_lem x r n h l =
      let a : length (pad n) ≤ 64 =
        omega (arith, length-replicate {A = ℕ} ((119 - n % 64) % 64) 0) in
      let (y, e, k) = update-Holds W wide x r n (pad n) h (omega (arith, a)) in
      let (z, f, m) =
        update-Holds W wide y (absorb W r (pad n)) (n + length (pad n)) (little 8 (n * 8)) k
          (omega (arith, a)) in
      let i : x.count0 / 8 % 64 ≡ n % 64 = omega (arith, h.count0) in
      let p : take (pad_length (x.count0 / 8 % 64)) padding ≡ pad n =
        ap (λ j. take (pad_length j) padding) i ∙ take-padding n in
      let b : encode (x.count0 ∷ x.count1 ∷ []) ≡ little 8 (n * 8) =
        rw (h.count0, h.count1) (encode-little n (omega arith)) in
      final-steps x y z (pad n) (little 8 (n * 8)) p b e f
      ∙ ap (λ t. some (written t))
          (m.state ∙ ap (λ q. q.0) (sym (absorb-append W r (pad n) (little 8 (n * 8)))))

  file_lem :
      (raw x : Context) (cs : List (List ℕ)) (b : List ℕ)
      → update_all W (init raw) cs ≡ some x
      → final W x ≡ some b
      → digest_file W raw cs ≡ some (write_to_string b)
  unfolding digest_file
  file_lem raw x cs b e f = rw (digest_file, e) (rw f refl)

  memory_lem :
      (raw x : Context) (m b : List ℕ)
      → update W (init raw) m ≡ some x
      → final W x ≡ some b
      → digest_memory W raw m ≡ some (write_to_string b)
  unfolding digest_memory
  memory_lem raw x m b e f = rw (digest_memory, e) (rw f refl)

  behind :
      (x : Context) (m : List ℕ)
      → Holds x (absorb W (initial_state, []) m) (0 + length m)
      → length m + 72 < 2 ^ 29
      → final W x ≡ some (digest W m)
  behind x m h l =
      let e : 0 + length m ≡ length m = omega arith in
      final_lem x (absorb W (initial_state, []) m) (length m) (rw (sym e) h) l
      ∙ ap (λ (r : Absorbed). some (written r.0))
          (sym (absorb-append W (initial_state, []) m (pad (length m) ++ little 8 (length m * 8))))

  -- Whatever pieces of fewer than 2 ^ 29 - 72 bytes in all `fread` yields, digestFile gives the digest
  -- of the text that they make up, with its padding and its length; digestMemory gives the same for the
  -- text as a whole: 32 hexadecimal digits. Neither reads outside the bytes or the buffer, and what the
  -- memory held does not matter. An `unsigned long` has at least 32 bits.
  pub digest_file-digest :
      (raw : Context) (cs : List (List ℕ))
      → length raw.buffer ≡ 64
      → length (joined cs) + 72 < 2 ^ 29
      → (digest_file W raw cs ≡ some (write_to_string (digest W (joined cs))))
        × (digest_memory W raw (joined cs) ≡ some (write_to_string (digest W (joined cs))))
        × (is_hex (write_to_string (digest W (joined cs))) ≡ true)
        × (length (write_to_string (digest W (joined cs))) ≡ 32)
  digest_file-digest raw cs h l =
      let m = joined cs in
      let i = init-Holds raw h in
      let (x, e, k) =
        update_all-Holds W wide (init raw) (initial_state, []) 0 cs i (omega (arith, l)) in
      let (y, f, j) = update-Holds W wide (init raw) (initial_state, []) 0 m i (omega (arith, l)) in
      let b = are_bytes-written (absorb W (initial_state, []) (whole m)).0 in
      let t = is_hex-write_to_string (digest W m) b.0 in
      (
        file_lem raw x cs (digest W m) e (behind x m k l),
        memory_lem raw y m (digest W m) f (behind y m j l),
        t.0,
        t.1 ∙ ap (λ k. k * 2) b.1,
      )

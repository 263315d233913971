-- ===== src/Md5/Stream.antt =====
-- However a text is cut into the inputs of `Update`, MD5 makes of it what it makes of its bytes.
use sws.Base.{
  ℕ, suc, ◌+◌, ◌-◌, ◌*◌, ◌/◌, ◌%◌, ◌^◌, ◌<◌, ◌≤◌, ◌≡◌, refl, ap, sym, ◌∙◌, ltb, leb, some, List, [],
  ◌∷◌, ◌++◌, length, length-append, length-take, take-append-drop, take-append, take, drop, arith,
  dec_lt, true, false, joined,
}
use native.Mathlib.Nat.{mod-eq_of_lt, pow-le-pow_right, add-zero}
use sws.Md5.{State, Context, transform, blocks, update, update_all, copied_to}
use sws.Md5.Absorb.{Absorbed, absorb, absorb-append, absorb-short, absorb-block}
use sws.Md5.Blocks.{blocks-absorb}
use sws.Md5.Buffer.{length-copied_to, take-copied_to, filled-copied_to}

-- The context holds what was made of `n` bytes.
pub record Holds (x : Context) (r : Absorbed) (n : ℕ) : Type 0 where
  pub state : x.state ≡ r.0
  pub count0 : x.count0 ≡ n * 8
  pub count1 : x.count1 ≡ 0
  pub size : length x.buffer ≡ 64
  pub pending : take (length r.1) x.buffer ≡ r.1
  pub index : length r.1 ≡ n % 64

module _ (W : ℕ) (wide : 32 ≤ W) where
  below : (m : ℕ) → m < 2 ^ 32 → m % 2 ^ W ≡ m
  below m h =
      let big : 2 ^ 32 ≤ 2 ^ W = pow-le-pow_right {n = 2} (omega arith) wide in
      mod-eq_of_lt {n = m} {m = 2 ^ W} (omega (arith, big))

  -- `Update` where the bytes do not fill the buffer, and where they do.
  module _ (x : Context) (s : State) (p : List ℕ) (n : ℕ) (input : List ℕ) (h : Holds x (s, p) n)
      (l : n + length input < 2 ^ 29) where
    bits : length input * 8 % 2 ^ W ≡ length input * 8
    bits = below (length input * 8) (omega arith)

    sum : (n * 8 + length input * 8) % 2 ^ W ≡ (n + length input) * 8
    sum = below (n * 8 + length input * 8) (omega arith) ∙ omega arith

    no_carry : ltb ((n + length input) * 8) (length input * 8) ≡ false
    no_carry = ground arith

    high : length input / 2 ^ 29 ≡ 0
    high = omega arith

    zeros : 0 % 2 ^ W ≡ 0
    zeros = below 0 (omega arith)

    at_index : n * 8 / 8 % 64 ≡ length p
    at_index = omega (arith, h.index)

    update-short :
        length p + length input < 64
        → update W x input
          ≡ some (record x {
            count0 = (n + length input) * 8;
            count1 = 0;
            buffer = copied_to (length p) input x.buffer;
          })
    unfolding update
    update-short k =
        let full : leb (64 - length p) (length input) ≡ false = ground arith in
        rw (update, h.count0, bits, sum, no_carry, h.count1, high, zeros, at_index, full) refl

    update-long :
        (t : State) (k : ℕ)
        → 64 ≤ length p + length input
        → blocks W
            (suc (length input))
            (transform W x.state (copied_to (length p) (take (64 - length p) input) x.buffer))
            input
            (64 - length p)
          ≡ some (t, k)
        → update W x input
          ≡ some (record x {
            count0 = (n + length input) * 8;
            count1 = 0;
            state = t;
            buffer =
                copied_to 0
                  (drop k input)
                  (copied_to (length p) (take (64 - length p) input) x.buffer);
          })
    unfolding update
    update-long t k m e =
        let full : leb (64 - length p) (length input) ≡ true = ground arith in
        rw (update, h.count0, bits, sum, no_carry, h.count1, high, zeros, at_index, full, e) refl

module _ (W : ℕ) (wide : 32 ≤ W) (x : Context) (s : State) (p : List ℕ) (n : ℕ) (input : List ℕ)
    (h : Holds x (s, p) n) (l : n + length input < 2 ^ 29) where
  Holds-short :
      length p + length input < 64
      → (y : Context) × (update W x input ≡ some y)
        × Holds y (absorb W (s, p) input) (n + length input)
  Holds-short k = (
    _,
    update-short W wide x s p n input h l k,
    rw (absorb-short W s p input k) (record {
      state = h.state;
      count0 = refl;
      count1 = refl;
      size = length-copied_to (length p) input x.buffer (omega (arith, h.size)) ∙ h.size;
      pending = take-copied_to p input x.buffer h.pending;
      index = omega (arith, length-append p input, h.index);
    }),
  )

  Holds-long :
      64 ≤ length p + length input
      → (y : Context) × (update W x input ≡ some y)
        × Holds y (absorb W (s, p) input) (n + length input)
  Holds-long k =
      let q = 64 - length p in
      let b = take q input in
      let u : length b ≡ q = length-take q input (omega (arith, h.index)) in
      let v : length p + length b ≡ 64 = omega (arith, u, h.index) in
      let f : copied_to (length p) b x.buffer ≡ p ++ b =
        filled-copied_to p b x.buffer h.pending v h.size in
      let w : length (copied_to (length p) b x.buffer) ≡ 64 =
        ap (λ (z : List ℕ). length z) f ∙ length-append p b ∙ v in
      let t0 = transform W x.state (copied_to (length p) b x.buffer) in
      let (t, j, e, r, a) =
        blocks-absorb W (suc (length input)) t0 input q (omega (arith, h.index)) (omega arith)
          (omega arith) in
      let g : absorb W (s, p) input ≡ (t, drop j input) =
        ap (absorb W (s, p)) (sym (take-append-drop q input))
        ∙ absorb-append W (s, p) b (drop q input)
        ∙ ap (λ z. absorb W z (drop q input)) (absorb-block W s p b (omega (arith, h.index)) v)
        ∙ ap (λ z. absorb W (z, []) (drop q input))
            (sym (ap (transform W x.state) f ∙ ap (λ z. transform W z (p ++ b)) h.state))
        ∙ a in
      (
        _,
        update-long W wide x s p n input h l t j k e,
        rw g (record {
          state = refl;
          count0 = refl;
          count1 = refl;
          size =
              length-copied_to 0 (drop j input) (copied_to (length p) b x.buffer)
                (omega (arith, r, w))
              ∙ w;
          pending = take-append (drop j input) _;
          index = r ∙ omega (arith, h.index);
        }),
      )

-- `Update` makes of an input what MD5 makes of its bytes, below 2 ^ 29 bytes in all.
pub update-Holds :
    (W : ℕ)
    → 32 ≤ W
    → (x : Context) (r : Absorbed) (n : ℕ) (input : List ℕ) → Holds x r n
    → n + length input < 2 ^ 29
    → (y : Context) × (update W x input ≡ some y) × Holds y (absorb W r input) (n + length input)
update-Holds W wide x (s, p) n input h l = elim (dec_lt (length p + length input) 64) [
  | yes k ↦ Holds-short W wide x s p n input h l k
  | no k ↦ Holds-long W wide x s p n input h l (omega arith)
]

pub update_all-Holds :
    (W : ℕ)
    → 32 ≤ W
    → (x : Context) (r : Absorbed) (n : ℕ) (cs : List (List ℕ)) → Holds x r n
    → n + length (joined cs) < 2 ^ 29
    → (y : Context) × (update_all W x cs ≡ some y)
      × Holds y (absorb W r (joined cs)) (n + length (joined cs))
unfolding update_all
update_all-Holds W wide x r n [] h l = (x, refl, rw (add-zero n) h)
update_all-Holds W wide x r n (c ∷ cs) h l =
    let a = length-append c (joined cs) in
    let (y, e, k) = update-Holds W wide x r n c h (omega (arith, a, l)) in
    let (z, f, m) =
      update_all-Holds W wide y (absorb W r c) (n + length c) cs k (omega (arith, a, l)) in
    let b : n + length c + length (joined cs) ≡ n + length (c ++ joined cs) = omega (arith, a) in
    (z, rw e f, rw (absorb-append W r c (joined cs), sym b) m)

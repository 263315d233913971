-- ===== src/Md5/Blocks.antt =====
-- The loop of `Update` over the blocks of an input.
use sws.Base.{
  ℕ, zero, suc, ◌+◌, ◌-◌, ◌*◌, ◌%◌, ◌^◌, ◌<◌, ◌≤◌, ◌≡◌, ap, sym, ◌∙◌, some, List, [], ◌++◌, length,
  length-take, length-drop, take-append-drop, drop-drop, take, drop, arith, dec_lt,
}
use sws.Md5.{State, transform, blocks}
use sws.Md5.Absorb.{absorb, absorb-append, absorb-short, absorb-block}

module _ (W : ℕ) where
  -- One round of the loop of `Update`.
  blocks-more :
      (fuel : ℕ) (s : State) (input : List ℕ) (n : ℕ)
      → n + 64 ≤ length input
      → length input < 2 ^ 29
      → blocks W (suc fuel) s input n
        ≡ blocks W fuel (transform W s (take 64 (drop n input))) input (n + 64)
  unfolding blocks
  blocks-more fuel s input n h l =
      let e : (n + 63) % 2 ^ 32 ≡ n + 63 = omega arith in
      let f : (n + 64) % 2 ^ 32 ≡ n + 64 = omega arith in rw (e, f) (ground arith)

  blocks-last :
      (fuel : ℕ) (s : State) (input : List ℕ) (n : ℕ)
      → length input < n + 64
      → n ≤ length input
      → length input < 2 ^ 29
      → blocks W (suc fuel) s input n ≡ some (s, n)
  unfolding blocks
  blocks-last fuel s input n h k l =
      let e : (n + 63) % 2 ^ 32 ≡ n + 63 = omega arith in rw e (ground arith)

  -- The loop takes all blocks that there are.
  pub blocks-absorb :
      (fuel : ℕ) (s : State) (input : List ℕ) (n : ℕ)
      → n ≤ length input
      → length input < n + fuel * 64
      → length input < 2 ^ 29
      → (t : State) × (k : ℕ) × (blocks W fuel s input n ≡ some (t, k))
        × (length (drop k input) ≡ (length input - n) % 64)
        × (absorb W (s, []) (drop n input) ≡ (t, drop k input))
  blocks-absorb zero s input n h f l = absurd (omega arith)
  blocks-absorb (suc fuel) s input n h f l = elim (dec_lt (length input) (n + 64)) [
    | yes p ↦
        let d = length-drop n input in
        (
          s,
          n,
          blocks-last fuel s input n p h l,
          omega (arith, d),
          absorb-short W s [] (drop n input) (omega (arith, d)),
        )
    | no p ↦
        let block = take 64 (drop n input) in
        let b : length block ≡ 64 =
          length-take 64 (drop n input) (omega (arith, length-drop n input)) in
        let (t, k, e, r, a) =
          blocks-absorb fuel (transform W s block) input (n + 64) (omega arith) (omega arith) l in
        let c : absorb W (s, []) block ≡ (transform W s block, []) =
          absorb-block W s [] block (omega arith) (omega (arith, b)) in
        let d : drop n input ≡ block ++ drop (n + 64) input =
          sym (take-append-drop 64 (drop n input))
          ∙ ap (λ ys. block ++ ys) (drop-drop 64 n input) in
        (
          t,
          k,
          blocks-more fuel s input n (omega arith) l ∙ e,
          r ∙ omega arith,
          ap (absorb W (s, [])) d
              ∙ absorb-append W (s, []) block (drop (n + 64) input)
              ∙ ap (λ x. absorb W x (drop (n + 64) input)) c
              ∙ a,
        )
  ]

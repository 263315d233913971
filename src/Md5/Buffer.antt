-- ===== src/Md5/Buffer.antt =====
-- What `memcpy` leaves in the buffer.
use sws.Base.{
  ℕ, ◌+◌, ◌≤◌, ◌≡◌, ap, sym, ◌∙◌, List, ◌++◌, length, length-append, length-take, length-drop,
  take-append, drop_all, take, drop, arith,
}
use mathlib.Core.List.{append-nil, append_assoc}
use sws.Md5.{copied_to}

pub length-copied_to :
    (i : ℕ) (b buffer : List ℕ)
    → i + length b ≤ length buffer
    → length (copied_to i b buffer) ≡ length buffer
length-copied_to i b buffer h = omega (
  arith,
  length-append (take i buffer) (b ++ drop (i + length b) buffer),
  length-append b (drop (i + length b) buffer),
  length-take i buffer (omega arith),
  length-drop (i + length b) buffer,
)

pub take-copied_to :
    (p b buffer : List ℕ)
    → take (length p) buffer ≡ p
    → take (length (p ++ b)) (copied_to (length p) b buffer) ≡ p ++ b
take-copied_to p b buffer e =
    let f : copied_to (length p) b buffer ≡ (p ++ b) ++ drop (length p + length b) buffer =
      ap (λ q. q ++ (b ++ drop (length p + length b) buffer)) e
      ∙ sym (append_assoc p b (drop (length p + length b) buffer)) in
    ap (take (length (p ++ b))) f ∙ take-append (p ++ b) (drop (length p + length b) buffer)

-- A buffer that is filled up holds the pending bytes and those that fill it.
pub filled-copied_to :
    (p b buffer : List ℕ)
    → take (length p) buffer ≡ p
    → length p + length b ≡ 64
    → length buffer ≡ 64
    → copied_to (length p) b buffer ≡ p ++ b
filled-copied_to p b buffer e f g =
    ap (λ q. q ++ (b ++ drop (length p + length b) buffer)) e
    ∙ ap (λ d. p ++ (b ++ d)) (drop_all (length p + length b) buffer (omega (arith, f, g)))
    ∙ ap (λ d. p ++ d) (append-nil b)

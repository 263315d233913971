-- ===== src/Playlist/Edit.antt =====
-- Positions in a playlist, and what `insert_after` does to them.
use sws.Base.{
  ℕ, zero, suc, ◌+◌, ◌<◌, ◌≤◌, ◌≡◌, refl, ap, ◌∙◌, sym, Bool, true, false, some, List, [], ◌∷◌,
  ◌++◌, reverse, if◌then◌else◌, ltb, length, take, drop, get_elem?, arith, Text, same, same→eq,
  Bool-cases, inl, inr,
}
use mathlib.Core.List.{append_assoc}
use sws.Playlist.{Playlist, index_loop, index_of, value_of, emplace_all, insert_after}

-- Whether the path is a track of the playlist.
abbrev pub is_track : Text → List Text → Bool
is_track p [] = false
is_track p (t ∷ ts) = if same p t then true else is_track p ts

index_loop_lem :
    (p : Text) (ts : List Text) (i : ℕ)
    → is_track p ts ≡ true
    → (k : ℕ) × (index_loop p ts i ≡ i + k) × (k < length ts) × (get_elem? ts k ≡ some p)
unfolding index_loop
index_loop_lem p [] i h = absurd (ground arith)
index_loop_lem p (t ∷ ts) i h = elim (Bool-cases (same p t)) [
  | inl e ↦ (0, rw e (omega arith), omega arith, ap some (sym (same→eq p t e)))
  | inr e ↦ next (index_loop_lem p ts (i + 1) (rw e at h)) e
]
  where
    next :
        ((k : ℕ) × (index_loop p ts (i + 1) ≡ i + 1 + k)
          × (k < length ts)
          × (get_elem? ts k ≡ some p))
        → same p t ≡ false
        → (k : ℕ) × (index_loop p (t ∷ ts) i ≡ i + k)
          × (k < length (t ∷ ts))
          × (get_elem? (t ∷ ts) k ≡ some p)
    next (k, a, b, c) e = (suc k, rw e (omega arith), omega arith, c)

-- The value at the index of a track is the track.
pub value_of-index_of :
    (l : Playlist) (p : Text) → is_track p l.tracks ≡ true → value_of l (index_of l p) ≡ some p
unfolding value_of index_of
value_of-index_of l p h =
    let (k, a, b, c) = index_loop_lem p l.tracks 0 h in ground (arith, a, b, c)

emplace_all_lem :
    (front backwards back : List Text)
    → emplace_all front backwards back ≡ front ++ (backwards ++ back)
unfolding emplace_all
emplace_all_lem front [] back = refl
emplace_all_lem front (p ∷ ps) back =
    emplace_all_lem (front ++ p ∷ []) ps back ∙ append_assoc front (p ∷ []) (ps ++ back)

take-all : (n : ℕ) (ts : List Text) → length ts ≤ n → (take n ts ≡ ts) × (drop n ts ≡ [])
take-all zero [] h = (refl, refl)
take-all (suc n) [] h = (refl, refl)
take-all zero (t ∷ ts) h = absurd (omega arith)
take-all (suc n) (t ∷ ts) h = let r = take-all n ts (omega arith) in (ap (λ xs. t ∷ xs) r.0, r.1)

-- `insert_after` puts the paths in front of the element at `curr`, or at the end where there is
-- none, in the reverse of their order.
pub insert_after-reverse :
    (l : Playlist) (curr : ℕ) (paths : List Text) (save : Bool)
    → (insert_after l curr paths save).0.tracks
      ≡ take curr l.tracks ++ (reverse paths ++ drop curr l.tracks)
unfolding insert_after
insert_after-reverse l curr paths save = elim (Bool-cases (ltb (length l.tracks) curr)) [
  | inl e ↦ rw e (
      emplace_all_lem (take n l.tracks) (reverse paths) (drop n l.tracks)
      ∙ rw (
        (take-all n l.tracks (omega arith)).0,
        (take-all n l.tracks (omega arith)).1,
        (take-all curr l.tracks (ground arith)).0,
        (take-all curr l.tracks (ground arith)).1,
      ))
  | inr e ↦ rw e (emplace_all_lem (take curr l.tracks) (reverse paths) (drop curr l.tracks))
]
  where
    n : ℕ
    n = length l.tracks

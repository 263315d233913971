-- ===== src/Util/Uid.antt =====
-- src/util.c, `util_get_uid` and `util_clear_uid`: the identifiers that a bitmap hands out.
-- An unsigned int is the list of its bits, the lowest first.
pub mod Fresh
use sws.Base.{
  ℕ, zero, suc, ◌-◌, Bool, true, false, ◌||◌, List, [], ◌∷◌, ltb, ◌==◌, if◌then◌else◌, set,
}

-- ffs(~bitmap): one more than the index of the lowest clear bit, or 0.
unfoldable pub ffs_not : List Bool → ℕ
ffs_not [] = 0
ffs_not (false ∷ bits) = 1
ffs_not (true ∷ bits) = let n = ffs_not bits in if n == 0 then 0 else suc n

-- The bitmap after the call, and the result. `ffs` returns at most 32, which a uint8_t holds.
unfoldable pub util_get_uid : List Bool → ℕ → List Bool × ℕ
unfolding ffs_not
util_get_uid bitmap max =
    let id = ffs_not bitmap in
    if id == 0 || ltb max id then (bitmap, 0) else (set bitmap (id - 1) true, id)

-- A shift by 32 bits or more is undefined; here it changes nothing.
unfoldable pub util_clear_uid : List Bool → ℕ → List Bool
util_clear_uid bitmap id = if id == 0 then bitmap else set bitmap (id - 1) false

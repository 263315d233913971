-- ===== src/Util/Appearance.antt =====
-- src/util.c, `bt_appear_to_str`: the name of an appearance value.
mod Table
pub mod Nearest
use sws.Base.{
  ℕ, ◌+◌, String, Option, none, some, List, [], ◌∷◌, ◌&&◌, ltb, ◌==◌, if◌then◌else◌, get_elem?,
}
pub use Table.{Appearance}
unfoldable pub use Table.{appearance_table}

-- The loop over the rest of the table, whose first entry has the index `i`: `str`, or none where it
-- stays NULL, and `type`, the index of the last category passed.
unfoldable pub appear_loop : List Appearance → (i type appearance : ℕ) → Option String × ℕ
appear_loop [] i type a = (none, type)
appear_loop (e ∷ table) i type a =
    let type' = if e.generic then i else type in
    let rest = appear_loop table (i + 1) type' a in
    if e.generic && ltb a e.val
    then (none, type)
    else if e.val == a
    then (some e.str, type')
    else rest

-- `none` stands for a read outside the table.
unfoldable pub bt_appear_to_str : ℕ → Option String
bt_appear_to_str a =
    let (str, type) = appear_loop appearance_table 0 0 a in
    elim str [
      | some s ↦ some s
      | none ↦ elim (get_elem? appearance_table type) [ none ↦ none | some e ↦ some e.str ]
    ]

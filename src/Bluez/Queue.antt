-- ===== src/Bluez/Queue.antt =====
-- include/src/shared/queue.c: a singly linked queue with a pointer to its last entry.
--
-- The entries that `head` leads to are a list, each with its address. `tail` is an address of its own,
-- so what the code writes through it changes the list only where an entry has that address. `fresh`
-- is the address that the allocation of an entry returns. The operations are those on a queue that is
-- not NULL, which is refused at once, but for `queue_length` and `isempty`, where NULL is `none`.
pub mod Shape
pub mod Ops
pub mod Remove
use sws.Base.{
  ℕ, zero, suc, ◌+◌, ◌-◌, ◌%◌, ◌^◌, Bool, true, false, Option, none, some, List, [], ◌∷◌,
  if◌then◌else◌, ◌==◌,
}

pub record Entry : Type 0 where
  pub addr : ℕ
  pub payload : ℕ

pub record Queue : Type 0 where
  pub chain : List Entry
  pub tail : Option ℕ
  pub entries : ℕ

-- An unsigned int.
abbrev pub uint : ℕ → ℕ
uint n = n % 2 ^ 32

abbrev pub entry : ℕ → ℕ → Entry
entry a d = record { addr = a; payload = d }

unfoldable pub queue_new : Queue
queue_new = record { chain = []; tail = none; entries = 0 }

-- `p->next = e`, with `e->next` NULL, for the entry at the address `p`.
unfoldable pub link : ℕ → Entry → List Entry → List Entry
link p e [] = []
link p e (x ∷ xs) = let rest = link p e xs in if x.addr == p then x ∷ e ∷ [] else x ∷ rest

abbrev or_head : Entry → List Entry → List Entry → List Entry
or_head e [] linked = e ∷ []
or_head e (x ∷ xs) linked = linked

unfoldable pub push_tail : ℕ → Queue → ℕ → Queue
unfolding link
push_tail fresh q d =
    let e = entry fresh d in
    let linked : List Entry = elim q.tail [ none ↦ q.chain | some p ↦ link p e q.chain ] in
    record { chain = or_head e q.chain linked; tail = some fresh; entries = uint (q.entries + 1) }

unfoldable pub push_head : ℕ → Queue → ℕ → Queue
push_head fresh q d = record {
  chain = entry fresh d ∷ q.chain;
  tail = elim q.tail [ none ↦ some fresh | some p ↦ some p ];
  entries = uint (q.entries + 1);
}

-- The search of `queue_push_after`, and the entry put behind the one found: the new list, and
-- whether the entry found was the last.
unfoldable pub insert_behind : ℕ → Entry → List Entry → Option (List Entry × Bool)
insert_behind d e [] = none
insert_behind d e (x ∷ xs) =
    let found : List Entry × Bool = (x ∷ e ∷ xs, elim xs [ [] ↦ true | y ∷ ys ↦ false ]) in
    let rest = insert_behind d e xs in
    if x.payload == d
    then some found
    else elim rest [ none ↦ none | some (ys, last) ↦ some (x ∷ ys, last) ]

unfoldable pub push_after : ℕ → Queue → (at d : ℕ) → Queue × Bool
unfolding insert_behind
push_after fresh q at d = elim (insert_behind at (entry fresh d) q.chain) [
  | none ↦ (q, false)
  | some (chain, last) ↦ (
    record {
      chain = chain;
      tail = if last then some fresh else q.tail;
      entries = uint (q.entries + 1);
    },
    true,
  )
]

-- The first entry taken off; `entries--` wraps.
unfoldable pub pop_head : Queue → Queue × Option ℕ
pop_head q = elim q.chain [
  | [] ↦ (q, none)
  | e ∷ es ↦ (
    record {
      chain = es;
      tail = elim es [ [] ↦ none | x ∷ xs ↦ q.tail ];
      entries = uint (q.entries + 2 ^ 32 - 1);
    },
    some e.payload,
  )
]

unfoldable pub peek_head : Queue → Option ℕ
peek_head q = elim q.chain [ [] ↦ none | e ∷ es ↦ some e.payload ]

-- The data of the entry at this address.
unfoldable pub data_at : ℕ → List Entry → Option ℕ
data_at p [] = none
data_at p (x ∷ xs) = let rest = data_at p xs in if x.addr == p then some x.payload else rest

unfoldable pub peek_tail : Queue → Option ℕ
unfolding data_at
peek_tail q = elim q.tail [ none ↦ none | some p ↦ data_at p q.chain ]

-- `queue_find`, where `function` is given its `match_data`. A NULL function is the comparison
-- `direct_match` with it.
unfoldable pub find_entry : (ℕ → Bool) → List Entry → Option ℕ
find_entry function [] = none
find_entry function (x ∷ xs) =
    let rest = find_entry function xs in if function x.payload then some x.payload else rest

-- The loop of `queue_remove` and `queue_remove_if`, at the entries not yet passed, with the address of
-- the one before them: the data taken out, the entries and the tail.
unfoldable pub unlink :
    (ℕ → Bool) → Option ℕ → Option ℕ → List Entry → Option (ℕ × List Entry × Option ℕ)
unlink function prev tail [] = none
unlink function prev tail (x ∷ xs) =
    let taken : ℕ × List Entry × Option ℕ =
      (x.payload, xs, elim xs [ [] ↦ prev | y ∷ ys ↦ tail ]) in
    let rest = unlink function (some x.addr) tail xs in
    if function x.payload
    then some taken
    else elim rest [ none ↦ none | some (d, ys, t) ↦ some (d, x ∷ ys, t) ]

unfoldable pub remove_if : (ℕ → Bool) → Queue → Queue × Option ℕ
unfolding unlink
remove_if function q = elim (unlink function none q.tail q.chain) [
  | none ↦ (q, none)
  | some (d, chain, tail) ↦
      (record { chain = chain; tail = tail; entries = uint (q.entries + 2 ^ 32 - 1) }, some d)
]

unfoldable pub remove : Queue → ℕ → Queue × Bool
unfolding remove_if
remove q d =
    let done = remove_if (λ x. x == d) q in (done.0, elim done.1 [ none ↦ false | some x ↦ true ])

-- The loop of `queue_remove_all` with a function: the queue, and what `destroy` is called with, in
-- order. It ends when a removal leaves `entries` as it was; `none` means that the fuel ran out.
unfoldable pub remove_matching : ℕ → (ℕ → Bool) → Queue → Option (Queue × List ℕ)
unfolding remove_if
remove_matching zero function q = none
remove_matching (suc fuel) function q =
    let removed = remove_if function q in
    let rest = remove_matching fuel function removed.0 in
    if removed.0.entries == q.entries then some (removed.0, []) else elim removed.1 [
      | none ↦ none
      | some d ↦ elim rest [ none ↦ none | some (r, ds) ↦ some (r, d ∷ ds) ]
    ]

-- Every entry in order: what `queue_foreach` calls its function with, where that leaves the queue, and
-- what `queue_remove_all` without a function destroys.
unfoldable pub contents : List Entry → List ℕ
contents [] = []
contents (x ∷ xs) = x.payload ∷ contents xs

unfoldable pub remove_everything : Queue → Queue × List ℕ
unfolding contents
remove_everything q = (record { chain = []; tail = none; entries = 0 }, contents q.chain)

unfoldable pub queue_length : Option Queue → ℕ
queue_length none = 0
queue_length (some q) = q.entries

unfoldable pub isempty : Option Queue → Bool
isempty none = true
isempty (some q) = q.entries == 0

-- ===== src/Bluez/Queue/Remove.antt =====
-- Taking entries out: the first that a function accepts, and all of them.
use sws.Base.{
  ℕ, suc, ◌+◌, ◌-◌, ◌%◌, ◌≡◌, refl, sym, ap, Bool, true, false, Option, none, some, List, [], ◌∷◌,
  if◌then◌else◌, length, arith, ◌^◌, &&-right,
}
use sws.Bluez.Queue.{Entry, Queue, contents, unlink, remove_if}
use sws.Bluez.Queue.Shape.{IsQueue, last_addr, has_addr, distinct}

-- The contents without the first that the function accepts, and the one taken out.
abbrev pub without_first : (ℕ → Bool) → List ℕ → List ℕ × Option ℕ
without_first f [] = ([], none)
without_first f (d ∷ ds) =
    let rest = without_first f ds in if f d then (ds, some d) else (d ∷ rest.0, rest.1)

-- What `unlink` returns, for a chain behind the address `prev`.
record Unlinked (f : ℕ → Bool) (prev : Option ℕ) (xs : List Entry) (d : ℕ) (ys : List Entry)
    (t : Option ℕ) : Type 0 where
  taken : without_first f (contents xs) ≡ (contents ys, some d)
  last : t ≡ last_addr prev ys
  count : length xs ≡ suc (length ys)
  addresses : distinct ys ≡ true
  subset : (a : ℕ) → has_addr a xs ≡ false → has_addr a ys ≡ false

abbrev Unlinks : (ℕ → Bool) → Option ℕ → List Entry → Option (ℕ × List Entry × Option ℕ) → Type 0
Unlinks f prev xs none = without_first f (contents xs) ≡ (contents xs, none)
Unlinks f prev xs (some (d, ys, t)) = Unlinked f prev xs d ys t

abbrev step_of :
    Entry
    → List Entry
    → Option ℕ
    → Option ℕ
    → Bool
    → Option (ℕ × List Entry × Option ℕ)
    → Option (ℕ × List Entry × Option ℕ)
step_of x xs prev tail b rest =
    if b
    then some (x.payload, xs, elim xs [ [] ↦ prev | y ∷ ys ↦ tail ])
    else elim rest [ none ↦ none | some (d, ys, t) ↦ some (d, x ∷ ys, t) ]

tail_behind :
    (x : Entry) (xs : List Entry) (prev tail : Option ℕ)
    → tail ≡ last_addr prev (x ∷ xs)
    → elim xs as (λ l. Option ℕ) [ [] ↦ prev | y ∷ ys ↦ tail ] ≡ last_addr prev xs
tail_behind x [] prev tail h = refl
tail_behind x (y ∷ ys) prev tail h = h

module _ (f : ℕ → Bool) (x : Entry) (xs : List Entry) (prev tail : Option ℕ)
    (d : distinct (x ∷ xs) ≡ true) (t : tail ≡ last_addr prev (x ∷ xs)) where
  Unlinks-step :
      (b : Bool) (rest : Option (ℕ × List Entry × Option ℕ))
      → f x.payload ≡ b
      → Unlinks f (some x.addr) xs rest
      → Unlinks f prev (x ∷ xs) (step_of x xs prev tail b rest)
  unfolding contents
  Unlinks-step true rest e ih = record {
    taken = rw e refl;
    last = tail_behind x xs prev tail t;
    count = refl;
    addresses = &&-right _ (distinct xs) d;
    subset = λ a h. ground arith;
  }
  Unlinks-step false none e ih = rw (e, ih) refl
  Unlinks-step false (some (y, ys, u)) e ih = record {
    taken = rw (e, ih.taken) refl;
    last = ih.last;
    count = ap suc ih.count;
    addresses = ground (arith, ih.subset x.addr, ih.addresses);
    subset = λ a h. ground (arith, ih.subset a);
  }

unlink-Unlinks :
    (f : ℕ → Bool) (prev tail : Option ℕ) (xs : List Entry)
    → distinct xs ≡ true
    → tail ≡ last_addr prev xs
    → Unlinks f prev xs (unlink f prev tail xs)
unfolding unlink contents
unlink-Unlinks f prev tail [] d t = refl
unlink-Unlinks f prev tail (x ∷ xs) d t =
    Unlinks-step f x xs prev tail d t (f x.payload) (unlink f (some x.addr) tail xs) refl
      (unlink-Unlinks f (some x.addr) tail xs (&&-right _ (distinct xs) d) t)

-- `remove_if` takes the first entry out that the function accepts, and returns its data; where there
-- is none, it leaves the queue. The queue keeps its shape: the tail moves back where the last entry
-- is taken.
pub remove_if_lem :
    (f : ℕ → Bool) (q : Queue)
    → IsQueue q
    → IsQueue (remove_if f q).0
      × ◌≡◌ {A = List ℕ × Option ℕ}
          (contents (remove_if f q).0.chain, (remove_if f q).1)
          (without_first f (contents q.chain))
unfolding remove_if
remove_if_lem f q v =
    by_result (unlink f none q.tail q.chain)
      (unlink-Unlinks f none q.tail q.chain v.addresses v.last)
  where
    result : Option (ℕ × List Entry × Option ℕ) → Queue × Option ℕ
    result none = (q, none)
    result (some (d, chain, tail)) =
        (record { chain = chain; tail = tail; entries = (q.entries + 2 ^ 32 - 1) % 2 ^ 32 }, some d)

    by_result :
        (r : Option (ℕ × List Entry × Option ℕ))
        → Unlinks f none q.chain r
        → IsQueue (result r).0
          × ◌≡◌ {A = List ℕ × Option ℕ}
              (contents (result r).0.chain, (result r).1)
              (without_first f (contents q.chain))
    by_result none u = (v, sym u)
    by_result (some (d, ys, t)) u = (
      record {
        last = u.last;
        addresses = u.addresses;
        counted = omega (arith, v.counted, v.small, u.count);
        small = omega (arith, v.small, u.count);
      },
      sym u.taken,
    )

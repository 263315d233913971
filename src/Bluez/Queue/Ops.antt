-- ===== src/Bluez/Queue/Ops.antt =====
-- Each operation keeps the shape of the queue, and does to its contents what it is meant to.
use sws.Base.{
  ℕ, ◌+◌, ◌≡◌, ◌≢◌, ◌<◌, refl, sym, ◌∙◌, true, false, Option, none, some, List, [], ◌∷◌, ◌++◌,
  length, length-append, arith, ◌^◌, &&-right,
}
use sws.Bluez.Queue.{
  Entry, Queue, entry, contents, push_tail, push_head, pop_head, peek_head, peek_tail, data_at,
}
use sws.Bluez.Queue.Shape.{
  IsQueue, last_addr, has_addr, distinct, contents-append, last_addr-append, distinct-append,
  link-last, last_addr-has,
}

-- The chain that `push_tail` leaves.
chain-push_tail :
    (fresh d : ℕ) (q : Queue)
    → IsQueue q
    → (push_tail fresh q d).chain ≡ q.chain ++ entry fresh d ∷ []
unfolding push_tail
chain-push_tail fresh d q v = by_chain q.chain q.tail v.last v.addresses
  where
    by_chain :
        (xs : List Entry) (tail : Option ℕ)
        → tail ≡ last_addr none xs
        → distinct xs ≡ true
        → (push_tail fresh (record q { chain = xs; tail = tail }) d).chain
          ≡ xs ++ entry fresh d ∷ []
    by_chain [] tail t a = refl
    by_chain (x ∷ xs) none t a = ground (arith, last_has_value x xs)
      where
        last_has_value : (x : Entry) (xs : List Entry) → none ≢ last_addr (some x.addr) xs
        last_has_value x [] = λ e. ground arith
        last_has_value x (y ∷ ys) = last_has_value y ys
    by_chain (x ∷ xs) (some p) t a = link-last none x xs p (entry fresh d) a (sym t)

-- With fewer than 2^32 - 1 entries and an address that none of them has, `push_tail` keeps the shape
-- of the queue and puts the data behind the others.
pub push_tail_lem :
    (fresh d : ℕ) (q : Queue)
    → IsQueue q
    → has_addr fresh q.chain ≡ false
    → length q.chain + 1 < 2 ^ 32
    → IsQueue (push_tail fresh q d)
      × (contents (push_tail fresh q d).chain ≡ contents q.chain ++ d ∷ [])
push_tail_lem fresh d q v f l = (
  record {
    last = rw c (unfold push_tail in sym (last_addr-append none q.chain (entry fresh d)));
    addresses = rw c (distinct-append q.chain (entry fresh d) v.addresses f);
    counted = rw c (unfold push_tail in omega (arith, length-append q.chain (entry fresh d ∷ [])));
    small = rw c (omega (arith, length-append q.chain (entry fresh d ∷ [])));
  },
  rw c (contents-append q.chain (entry fresh d ∷ []) ∙ (unfold contents in refl)),
)
  where
    c : (push_tail fresh q d).chain ≡ q.chain ++ entry fresh d ∷ []
    c = chain-push_tail fresh d q v

last_addr-some : (p : ℕ) (xs : List Entry) → (a : ℕ) × (last_addr (some p) xs ≡ some a)
last_addr-some p [] = (p, refl)
last_addr-some p (x ∷ xs) = last_addr-some x.addr xs

last_addr-nonempty :
    (p r : Option ℕ) (x : Entry) (xs : List Entry) → last_addr p (x ∷ xs) ≡ last_addr r (x ∷ xs)
last_addr-nonempty p r x xs = refl

-- Where the chain of a queue is empty it has no tail, and otherwise its tail is that of the chain.
IsQueue-tail :
    (xs : List Entry) (t fresh : Option ℕ)
    → t ≡ last_addr none xs
    → elim t as (λ o. Option ℕ) [ none ↦ fresh | some p ↦ some p ] ≡ last_addr fresh xs
IsQueue-tail [] t fresh h = rw h
IsQueue-tail (x ∷ xs) t fresh h = let (a, e) = last_addr-some x.addr xs in rw (h, e)

-- With fewer than 2^32 - 1 entries and an address that none of them has, `push_head` keeps the shape
-- of the queue and puts the data in front of the others.
pub push_head_lem :
    (fresh d : ℕ) (q : Queue)
    → IsQueue q
    → has_addr fresh q.chain ≡ false
    → length q.chain + 1 < 2 ^ 32
    → IsQueue (push_head fresh q d) × (contents (push_head fresh q d).chain ≡ d ∷ contents q.chain)
unfolding push_head contents
push_head_lem fresh d q v f l = (
  record {
    last = IsQueue-tail q.chain q.tail (some fresh) v.last;
    addresses = rw f v.addresses;
    counted = omega arith;
    small = omega arith;
  },
  refl,
)

-- What `pop_head` does to the contents.
abbrev pub pop : List ℕ → List ℕ × Option ℕ
pop [] = ([], none)
pop (d ∷ ds) = (ds, some d)

-- `pop_head` takes the first data out and returns it; an empty queue it leaves, and returns NULL.
pub pop_head_lem :
    (q : Queue)
    → IsQueue q
    → IsQueue (pop_head q).0
      × ◌≡◌ {A = List ℕ × Option ℕ}
          (contents (pop_head q).0.chain, (pop_head q).1)
          (pop (contents q.chain))
unfolding pop_head contents
pop_head_lem q v = by_chain q.chain q.tail q.entries v
  where
    by_chain :
        (xs : List Entry) (t : Option ℕ) (n : ℕ)
        → IsQueue (record { chain = xs; tail = t; entries = n })
        → IsQueue (pop_head (record { chain = xs; tail = t; entries = n })).0
          × ◌≡◌ {A = List ℕ × Option ℕ}
              (
                contents (pop_head (record { chain = xs; tail = t; entries = n })).0.chain,
                (pop_head (record { chain = xs; tail = t; entries = n })).1,
              )
              (pop (contents xs))
    by_chain [] t n v = (v, refl)
    by_chain (x ∷ []) t n v = (
      record {
        last = refl;
        addresses = refl;
        counted = omega (arith, v.counted);
        small = omega arith;
      },
      refl,
    )
    by_chain (x ∷ y ∷ ys) t n v = (
      record {
        last = v.last;
        addresses = &&-right _ (distinct (y ∷ ys)) v.addresses;
        counted = omega (arith, v.counted, v.small);
        small = omega (arith, v.small);
      },
      refl,
    )

abbrev pub first : List ℕ → Option ℕ
first [] = none
first (d ∷ ds) = some d

abbrev pub last_of : List ℕ → Option ℕ
last_of [] = none
last_of (d ∷ []) = some d
last_of (d ∷ e ∷ ds) = last_of (e ∷ ds)

data_at-last :
    (p : Option ℕ) (x : Entry) (xs : List Entry) (a : ℕ)
    → distinct (x ∷ xs) ≡ true
    → last_addr p (x ∷ xs) ≡ some a
    → data_at a (x ∷ xs) ≡ last_of (contents (x ∷ xs))
unfolding data_at contents
data_at-last p x [] a d h = ground arith
data_at-last p x (y ∷ ys) a d h =
    ground (arith, data_at-last (some x.addr) y ys a, last_addr-has y.addr ys a)

-- `peek_head` and `peek_tail` return the first and the last of the contents, or NULL where there are none.
pub peek_lem :
    (q : Queue)
    → IsQueue q
    → (peek_head q ≡ first (contents q.chain)) × (peek_tail q ≡ last_of (contents q.chain))
unfolding peek_head peek_tail contents
peek_lem q v = (first_entry q.chain, last_entry q.chain q.tail v.addresses v.last)
  where
    first_entry :
        (xs : List Entry)
        → elim xs as (λ l. Option ℕ) [ [] ↦ none | e ∷ es ↦ some e.payload ] ≡ first (contents xs)
    first_entry [] = refl
    first_entry (x ∷ xs) = refl

    last_entry :
        (xs : List Entry) (t : Option ℕ)
        → distinct xs ≡ true
        → t ≡ last_addr none xs
        → elim t as (λ o. Option ℕ) [ none ↦ none | some p ↦ data_at p xs ] ≡ last_of (contents xs)
    last_entry [] t d h = rw h
    last_entry (x ∷ xs) t d h =
        let (a, e) = last_addr-some x.addr xs in rw (h, e) (data_at-last none x xs a d e)

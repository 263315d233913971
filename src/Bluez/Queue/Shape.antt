-- ===== src/Bluez/Queue/Shape.antt =====
-- What holds of a queue between two calls.
use sws.Base.{
  ℕ, suc, ◌≡◌, ◌⊎◌, inl, ◌<◌, refl, ap, Bool, true, false, not, ◌&&◌, Option, none, some, List, [],
  ◌∷◌, ◌++◌, ◌==◌, if◌then◌else◌, length, arith, ◌^◌,
}
use sws.Bluez.Queue.{Entry, Queue, link, contents}

-- The address of the last entry.
abbrev pub last_addr : Option ℕ → List Entry → Option ℕ
last_addr p [] = p
last_addr p (x ∷ xs) = last_addr (some x.addr) xs

abbrev pub has_addr : ℕ → List Entry → Bool
has_addr a [] = false
has_addr a (x ∷ xs) = if x.addr == a then true else has_addr a xs

abbrev pub distinct : List Entry → Bool
distinct [] = true
distinct (x ∷ xs) = not (has_addr x.addr xs) && distinct xs

pub record IsQueue (q : Queue) : Type 0 where
  pub last : q.tail ≡ last_addr none q.chain
  pub addresses : distinct q.chain ≡ true
  pub counted : q.entries ≡ length q.chain
  pub small : length q.chain < 2 ^ 32

pub length-contents : (xs : List Entry) → length (contents xs) ≡ length xs
unfolding contents
length-contents [] = refl
length-contents (x ∷ xs) = ap suc (length-contents xs)

pub contents-append : (xs ys : List Entry) → contents (xs ++ ys) ≡ contents xs ++ contents ys
unfolding contents
contents-append [] ys = refl
contents-append (x ∷ xs) ys = ap (λ t. x.payload ∷ t) (contents-append xs ys)

pub last_addr-append :
    (p : Option ℕ) (xs : List Entry) (e : Entry) → last_addr p (xs ++ e ∷ []) ≡ some e.addr
last_addr-append p [] e = refl
last_addr-append p (x ∷ xs) e = last_addr-append (some x.addr) xs e

pub has_addr-append :
    (a : ℕ) (xs : List Entry) (e : Entry)
    → has_addr a (xs ++ e ∷ []) ≡ (if has_addr a xs then true else e.addr == a)
has_addr-append a [] e = ground arith
has_addr-append a (x ∷ xs) e = ground (arith, has_addr-append a xs e)

pub distinct-append :
    (xs : List Entry) (e : Entry)
    → distinct xs ≡ true
    → has_addr e.addr xs ≡ false
    → distinct (xs ++ e ∷ []) ≡ true
distinct-append [] e d h = refl
distinct-append (x ∷ xs) e d h = ground (arith, has_addr-append x.addr xs e, distinct-append xs e)

pub last_addr-has :
    (p : ℕ) (xs : List Entry) (a : ℕ)
    → last_addr (some p) xs ≡ some a
    → (p ≡ a) ⊎ (has_addr a xs ≡ true)
last_addr-has p [] a h = inl (ground arith)
last_addr-has p (x ∷ xs) a h = ground (arith, last_addr-has x.addr xs a h)

-- Linking behind the last entry puts the new one at the end.
pub link-last :
    (p : Option ℕ) (x : Entry) (xs : List Entry) (a : ℕ) (e : Entry)
    → distinct (x ∷ xs) ≡ true
    → last_addr p (x ∷ xs) ≡ some a
    → link a e (x ∷ xs) ≡ (x ∷ xs) ++ e ∷ []
unfolding link
link-last p x [] a e d h = ground arith
link-last p x (y ∷ ys) a e d h =
    ground (arith, link-last (some x.addr) y ys a e, last_addr-has y.addr ys a h)

-- ===== src/Cache/Ram/Chain.antt =====
-- What `addToFront` and `remove` of internal/wait0/cache/ram.go do to the list from head to tail.
use mathlib.Core.List.{append-nil}
use wait.Base.{
  ℕ, ◌≡◌, refl, inl, inr, Bool, false, Option, none, some, List, [], ◌∷◌, ◌++◌, arith, sym, ◌∙◌,
}
use wait.Cache.Ram.{
  Heap, Ram, write, set_prev, set_next, set_prev?, set_next?, or_else, remove, add_to_front,
}
use wait.Cache.Ram.Links.{
  first, last, Seg, is_in, Distinct, Distinct-append, Distinct-middle, Seg-append, Seg-join,
  last-append, Seg-write, Seg-set_prev, Seg-set_next, snoc-cases,
}

-- The cache's list from head to tail holds the addresses `l`.
pub record IsChain (c : Ram) (l : List ℕ) : Type 0 where
  pub linked : Seg c.heap none l none
  pub starts : c.head ≡ first l none
  pub ends : c.tail ≡ last none l
  pub distinct : Distinct l

abbrev is_in? : Option ℕ → List ℕ → Bool
is_in? none l = false
is_in? (some a) l = is_in a l

pub last-some : (x : ℕ) (xs : List ℕ) → (b : ℕ) × (last (some x) xs ≡ some b)
last-some x [] = (x, refl)
last-some x (y ∷ xs) = last-some y xs

last-front : (a : ℕ) (l : List ℕ) → or_else (last none l) (last none l) (some a) ≡ last (some a) l
last-front a [] = refl
last-front a (x ∷ xs) = rw ((last-some x xs).1)

is_in?-first : (xs ys : List ℕ) → Distinct (xs ++ ys) → is_in? (first ys none) xs ≡ false
is_in?-first xs [] d = refl
is_in?-first xs (y ∷ ys) d = (Distinct-middle xs y ys d).0

is_in?-last : (xs ys : List ℕ) → Distinct (xs ++ ys) → is_in? (last none xs) ys ≡ false
is_in?-last [] ys d = refl
is_in?-last (x ∷ []) ys d = d.0
is_in?-last (x ∷ y ∷ xs) ys d = is_in?-last (y ∷ xs) ys d.1

set_next?-front :
    (h : Heap) (xs : List ℕ) (n m : Option ℕ)
    → Distinct xs
    → Seg h none xs n
    → Seg (set_next? h (last none xs) m) none xs m
set_next?-front h xs n m d s = elim (snoc-cases xs) [
  | inl e ↦ rw e tt
  | inr (zs, b, e) ↦
      rw (e, last-append none zs (b ∷ [])) (Seg-set_next h none zs b n m (rw e at d) (rw e at s))
]

set_next?-other :
    (h : Heap) (q m p : Option ℕ) (l : List ℕ) (n : Option ℕ)
    → is_in? q l ≡ false
    → Seg h p l n
    → Seg (set_next? h q m) p l n
set_next?-other h none m p l n e s = s
set_next?-other h (some a) m p l n e s = Seg-write h a _ p l n e s

set_prev?-other :
    (h : Heap) (q m p : Option ℕ) (l : List ℕ) (n : Option ℕ)
    → is_in? q l ≡ false
    → Seg h p l n
    → Seg (set_prev? h q m) p l n
set_prev?-other h none m p l n e s = s
set_prev?-other h (some a) m p l n e s = Seg-write h a _ p l n e s

set_prev?-back :
    (h : Heap) (p q : Option ℕ) (ys : List ℕ) (n : Option ℕ)
    → Distinct ys
    → Seg h p ys n
    → Seg (set_prev? h (first ys none) q) q ys n
set_prev?-back h p q [] n d s = tt
set_prev?-back h p q (y ∷ ys) n d s = Seg-set_prev h p q y ys n d.0 s

set_next?-at :
    (h : Heap) (q m : Option ℕ) (a : ℕ) → is_in? q (a ∷ []) ≡ false → set_next? h q m a ≡ h a
set_next?-at h none m a e = refl
set_next?-at h (some b) m a e = ground arith

narrow :
    (q : Option ℕ) (a : ℕ) (ys : List ℕ) → is_in? q (a ∷ ys) ≡ false → is_in? q (a ∷ []) ≡ false
narrow none a ys e = refl
narrow (some b) a ys e = ground arith

-- The heap after `remove`, where the neighbours are known.
unlinked : Heap → Option ℕ → Option ℕ → ℕ → Heap
unlinked h p n a =
    let h2 = set_prev? (set_next? h p n) n p in
    write h2 a (record (h2 a) { prev = none; next = none })

unlinked-Seg :
    (h : Heap) (xs : List ℕ) (a : ℕ) (ys : List ℕ)
    → Distinct (xs ++ a ∷ ys)
    → Seg h none xs (some a)
    → Seg h (some a) ys none
    → Seg (unlinked h (last none xs) (first ys none) a) none (xs ++ ys) none
unfolding unlinked
unlinked-Seg h xs a ys d front back =
    let (not_before, not_behind, rest) = Distinct-middle xs a ys d in
    let (dx, dy) = Distinct-append xs ys rest in
    let h1 = set_next? h (last none xs) (first ys none) in
    let h2 = set_prev? h1 (first ys none) (last none xs) in
    let front1 = set_next?-front h xs (some a) (first ys none) dx front in
    let back1 =
      set_next?-other h (last none xs) (first ys none) (some a) ys none (is_in?-last xs ys rest)
        back in
    let front2 =
      set_prev?-other h1 (first ys none) (last none xs) none xs (first ys none)
        (is_in?-first xs ys rest) front1 in
    let back2 = set_prev?-back h1 (some a) (last none xs) ys none dy back1 in
    Seg-join (write h2 a _) none xs ys none
      (Seg-write h2 a _ none xs (first ys none) not_before front2)
      (Seg-write h2 a _ (last none xs) ys none not_behind back2)

head-append :
    (xs : List ℕ) (a : ℕ) (ys : List ℕ)
    → or_else (last none xs) (first (xs ++ a ∷ ys) none) (first ys none) ≡ first (xs ++ ys) none
head-append [] a ys = refl
head-append (x ∷ xs) a ys = rw ((last-some x xs).1)

tail-append :
    (xs : List ℕ) (a : ℕ) (ys : List ℕ)
    → or_else (first ys none) (last none (xs ++ a ∷ ys)) (last none xs) ≡ last none (xs ++ ys)
tail-append xs a [] = rw append-nil
tail-append xs a (y ∷ ys) = last-append none xs (a ∷ y ∷ ys) ∙ sym (last-append none xs (y ∷ ys))

module _ (c : Ram) (xs : List ℕ) (a : ℕ) (ys : List ℕ) (ok : IsChain c (xs ++ a ∷ ys)) where
  neighbours : ((c.heap a).prev ≡ last none xs) × ((c.heap a).next ≡ first ys none)
  neighbours = let (front, at) = Seg-append c.heap none xs (a ∷ ys) none ok.linked in (at.0, at.1)

  last_other : is_in? (last none xs) (a ∷ []) ≡ false
  last_other = narrow (last none xs) a ys (is_in?-last xs (a ∷ ys) ok.distinct)

  remove_lem : remove c a ≡ record c {
    heap = unlinked c.heap (last none xs) (first ys none) a;
    head = first (xs ++ ys) none;
    tail = last none (xs ++ ys);
  }
  unfolding remove unlinked
  remove_lem =
      let (before, behind) = neighbours in
      let same = set_next?-at c.heap (last none xs) (first ys none) a last_other in
      rw (before, behind, same, before, behind, ok.starts, ok.ends, head-append, tail-append)

  -- `remove` takes the item out of the list, and keeps the order of the others.
  pub remove-IsChain : IsChain (remove c a) (xs ++ ys)
  remove-IsChain =
      let (front, at) = Seg-append c.heap none xs (a ∷ ys) none ok.linked in
      rw remove_lem (record {
        linked = unlinked-Seg c.heap xs a ys ok.distinct front at.2;
        starts = refl;
        ends = refl;
        distinct = (Distinct-middle xs a ys ok.distinct).2;
      })

-- The heap after `addToFront`, where the first item is known.
fronted : Heap → ℕ → Option ℕ → Heap
fronted h a n = let h1 = set_prev h a none in let h2 = set_next h1 a n in set_prev? h2 n (some a)

fronted-Seg :
    (h : Heap) (a : ℕ) (l : List ℕ)
    → is_in a l ≡ false
    → Distinct l
    → Seg h none l none
    → Seg (fronted h a (first l none)) none (a ∷ l) none
unfolding fronted
fronted-Seg h a [] e d s = (ground arith, ground arith, tt)
fronted-Seg h a (x ∷ ys) e d s =
    let h1 = set_prev h a none in
    let h2 = set_next h1 a (some x) in
    let old1 = Seg-write h a (record (h a) { prev = none }) none (x ∷ ys) none e s in
    let old2 = Seg-write h1 a (record (h1 a) { next = some x }) none (x ∷ ys) none e old1 in
    (ground arith, ground arith, Seg-set_prev h2 none (some a) x ys none d.0 old2)

module _ (c : Ram) (a : ℕ) (l : List ℕ) (ok : IsChain c l) where
  add_to_front_lem : add_to_front c a ≡ record c {
    heap = fronted c.heap a (first l none);
    head = some a;
    tail = or_else (last none l) (last none l) (some a);
  }
  unfolding add_to_front fronted
  add_to_front_lem = rw (ok.starts, ok.ends)

  -- `addToFront` puts an item that is not in the list in front of the others.
  pub add_to_front-IsChain : is_in a l ≡ false → IsChain (add_to_front c a) (a ∷ l)
  add_to_front-IsChain e = rw add_to_front_lem (record {
    linked = fronted-Seg c.heap a l e ok.distinct ok.linked;
    starts = refl;
    ends = last-front a l;
    distinct = (e, ok.distinct);
  })

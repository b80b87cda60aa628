-- ===== src/Cache/Ram/Links.antt =====
-- The prev and next pointers of internal/wait0/cache/ram.go: when they spell a list of addresses,
-- and what writes to the heap do to that.
use wait.Base.{
  ℕ, ◌≡◌, ◌⊎◌, refl, inl, inr, Bool, true, false, ◌||◌, Option, some, List, [], ◌∷◌, ◌++◌, arith,
  ◌==◌, All, Bool-cases,
}
use wait.Cache.Ram.{RamItem, Heap, write, set_prev, set_next}

-- The first address of a list, or what stands behind it; the last, or what stands before it.
abbrev pub first : List ℕ → Option ℕ → Option ℕ
first [] n = n
first (a ∷ l) n = some a

abbrev pub last : Option ℕ → List ℕ → Option ℕ
last p [] = p
last p (a ∷ l) = last (some a) l

-- The items at `l` are linked in this order, with `p` before them and `n` behind them.
abbrev pub Seg : Heap → Option ℕ → List ℕ → Option ℕ → Type 0
Seg h p [] n = Unit
Seg h p (a ∷ l) n = ((h a).prev ≡ p) × ((h a).next ≡ first l n) × Seg h (some a) l n

abbrev pub is_in : ℕ → List ℕ → Bool
is_in a [] = false
is_in a (b ∷ l) = (b == a) || is_in a l

abbrev pub Distinct : List ℕ → Type 0
Distinct [] = Unit
Distinct (a ∷ l) = (is_in a l ≡ false) × Distinct l

pub is_in-append : (a : ℕ) (xs ys : List ℕ) → is_in a (xs ++ ys) ≡ (is_in a xs || is_in a ys)
is_in-append a [] ys = refl
is_in-append a (x ∷ xs) ys = ground (arith, is_in-append a xs ys)

pub Distinct-append : (xs ys : List ℕ) → Distinct (xs ++ ys) → Distinct xs × Distinct ys
Distinct-append [] ys d = (tt, d)
Distinct-append (x ∷ xs) ys d = ground (arith, Distinct-append xs ys, is_in-append x xs ys)

-- An address between two lists of distinct addresses is in neither, and leaves them distinct.
pub Distinct-middle :
    (xs : List ℕ) (a : ℕ) (ys : List ℕ)
    → Distinct (xs ++ a ∷ ys)
    → (is_in a xs ≡ false) × (is_in a ys ≡ false) × Distinct (xs ++ ys)
Distinct-middle [] a ys d = (refl, d.0, d.1)
Distinct-middle (x ∷ xs) a ys d =
    ground (arith, Distinct-middle xs a ys, is_in-append x xs (a ∷ ys), is_in-append x xs ys)

pub Seg-append :
    (h : Heap) (p : Option ℕ) (xs ys : List ℕ) (n : Option ℕ)
    → Seg h p (xs ++ ys) n
    → Seg h p xs (first ys n) × Seg h (last p xs) ys n
Seg-append h p [] ys n s = (tt, s)
Seg-append h p (x ∷ []) ys n s = ((s.0, s.1, tt), s.2)
Seg-append h p (x ∷ y ∷ xs) ys n s =
    let (front, back) = Seg-append h (some x) (y ∷ xs) ys n s.2 in ((s.0, s.1, front), back)

pub Seg-join :
    (h : Heap) (p : Option ℕ) (xs ys : List ℕ) (n : Option ℕ)
    → Seg h p xs (first ys n)
    → Seg h (last p xs) ys n
    → Seg h p (xs ++ ys) n
Seg-join h p [] ys n s t = t
Seg-join h p (x ∷ []) ys n s t = (s.0, s.1, t)
Seg-join h p (x ∷ y ∷ xs) ys n s t = (s.0, s.1, Seg-join h (some x) (y ∷ xs) ys n s.2 t)

pub first-append : (xs ys : List ℕ) (n : Option ℕ) → first (xs ++ ys) n ≡ first xs (first ys n)
first-append [] ys n = refl
first-append (x ∷ xs) ys n = refl

pub last-append : (p : Option ℕ) (xs ys : List ℕ) → last p (xs ++ ys) ≡ last (last p xs) ys
last-append p [] ys = refl
last-append p (x ∷ xs) ys = last-append (some x) xs ys

-- A heap with the same links at the addresses of `l` has the same chain.
abbrev pub SameLinks : Heap → Heap → List ℕ → Type 0
SameLinks h h' = All (λ b. ((h' b).prev ≡ (h b).prev) × ((h' b).next ≡ (h b).next))

pub Seg-frame :
    (h h' : Heap) (p : Option ℕ) (l : List ℕ) (n : Option ℕ)
    → SameLinks h h' l
    → Seg h p l n
    → Seg h' p l n
Seg-frame h h' p [] n e s = tt
Seg-frame h h' p (a ∷ l) n e s = (cc, cc, Seg-frame h h' (some a) l n e.1 s.2)

-- A write elsewhere.
pub SameLinks-write :
    (h : Heap) (a : ℕ) (it : RamItem) (l : List ℕ)
    → is_in a l ≡ false
    → SameLinks h (write h a it) l
SameLinks-write h a it [] e = tt
SameLinks-write h a it (b ∷ l) e = ground (arith, SameLinks-write h a it l)

pub Seg-write :
    (h : Heap) (a : ℕ) (it : RamItem) (p : Option ℕ) (l : List ℕ) (n : Option ℕ)
    → is_in a l ≡ false
    → Seg h p l n
    → Seg (write h a it) p l n
Seg-write h a it p l n e = Seg-frame h (write h a it) p l n (SameLinks-write h a it l e)

-- A write that keeps the links of the item it replaces.
pub SameLinks-write_self :
    (h : Heap) (a : ℕ) (it : RamItem) (l : List ℕ)
    → it.prev ≡ (h a).prev
    → it.next ≡ (h a).next
    → SameLinks h (write h a it) l
SameLinks-write_self h a it [] e f = tt
SameLinks-write_self h a it (b ∷ l) e f =
    let both : ((write h a it b).prev ≡ (h b).prev) × ((write h a it b).next ≡ (h b).next) =
      ground arith in
    (both, SameLinks-write_self h a it l e f)

-- Setting `prev` of the first item, and `next` of the last one.
pub Seg-set_prev :
    (h : Heap) (p q : Option ℕ) (a : ℕ) (l : List ℕ) (n : Option ℕ)
    → is_in a l ≡ false
    → Seg h p (a ∷ l) n
    → Seg (set_prev h a q) q (a ∷ l) n
Seg-set_prev h p q a l n e s =
    let tail = Seg-write h a (record (h a) { prev = q }) (some a) l n e s.2 in
    (ground arith, ground arith, tail)

pub Seg-set_next :
    (h : Heap) (p : Option ℕ) (xs : List ℕ) (a : ℕ) (n m : Option ℕ)
    → Distinct (xs ++ a ∷ [])
    → Seg h p (xs ++ a ∷ []) n
    → Seg (set_next h a m) p (xs ++ a ∷ []) m
Seg-set_next h p [] a n m d s = (ground arith, ground arith, tt)
Seg-set_next h p (x ∷ xs) a n m d s =
    let rest = Seg-set_next h (some x) xs a n m d.1 s.2 in
    let ends = first-append xs (a ∷ []) in
    (
      ground (arith, is_in-append x xs (a ∷ [])),
      ground (arith, is_in-append x xs (a ∷ []), ends n, ends m),
      rest,
    )

-- The last item of a list, where it has one.
pub snoc-cases : (l : List ℕ) → (l ≡ []) ⊎ ((xs : List ℕ) × (a : ℕ) × (l ≡ xs ++ a ∷ []))
snoc-cases [] = inl refl
snoc-cases (x ∷ l) = elim (snoc-cases l) [
  | inl e ↦ inr ([], x, cc)
  | inr (xs, a, e) ↦ inr (x ∷ xs, a, cc)
]

pub is_in-split :
    (a : ℕ) (l : List ℕ) → is_in a l ≡ true → (xs : List ℕ) × (ys : List ℕ) × (l ≡ xs ++ a ∷ ys)
is_in-split a [] h = cc
is_in-split a (b ∷ l) h = elim (Bool-cases (b == a)) [
  | inl e ↦ ([], l, ground arith)
  | inr e ↦ let (xs, ys, f) = is_in-split a l (ground arith) in (b ∷ xs, ys, cc)
]

pub is_in_middle : (xs : List ℕ) (a : ℕ) (ys : List ℕ) → is_in a (xs ++ a ∷ ys) ≡ true
is_in_middle [] a ys = ground arith
is_in_middle (x ∷ xs) a ys = ground (arith, is_in_middle xs a ys)

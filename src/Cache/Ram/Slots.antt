-- ===== src/Cache/Ram/Slots.antt =====
-- What an item holds beside its links: the operations on the list of internal/wait0/cache/ram.go
-- leave it alone.
use wait.Base.{
  ℕ, ◌≡◌, refl, ap, ◌∙◌, Option, none, some, List, [], ◌∷◌, ◌++◌, false, arith, ◌==◌, ◌+◌, inl, inr,
  Bool-cases,
}
use wait.Cache.Lru.{Slot}
use wait.Cache.Ram.Links.{is_in}
use wait.Cache.Ram.{
  RamItem, Heap, Ram, write, set_prev, set_next, set_prev?, set_next?, remove, add_to_front,
  move_to_front, points_to,
}

abbrev pub slot : RamItem → Slot
slot it = record {
  key = it.key;
  ent = it.ent;
  size = it.size;
  stats_size = it.stats_size;
  last_access = it.last_access;
}

-- The content of the cache, most recently used first.
abbrev pub contents : Heap → List ℕ → List Slot
contents h [] = []
contents h (a ∷ l) = slot (h a) ∷ contents h l

-- The bytes of the items.
abbrev pub sizes : Heap → List ℕ → ℕ
sizes h [] = 0
sizes h (a ∷ l) = (h a).size + sizes h l

abbrev pub SameSlots : Heap → Heap → Type 0
SameSlots h h' = (b : ℕ) → slot (h' b) ≡ slot (h b)

pub contents-SameSlots : (h h' : Heap) (l : List ℕ) → SameSlots h h' → contents h' l ≡ contents h l
contents-SameSlots h h' [] e = refl
contents-SameSlots h h' (a ∷ l) e = cc (e a, contents-SameSlots h h' l e)

pub sizes-SameSlots : (h h' : Heap) (l : List ℕ) → SameSlots h h' → sizes h' l ≡ sizes h l
sizes-SameSlots h h' [] e = refl
sizes-SameSlots h h' (a ∷ l) e = cc (ap (λ (s : Slot). s.size) (e a), sizes-SameSlots h h' l e)

pub sizes-append : (h : Heap) (xs ys : List ℕ) → sizes h (xs ++ ys) ≡ sizes h xs + sizes h ys
sizes-append h [] ys = omega arith
sizes-append h (x ∷ xs) ys = omega (arith, sizes-append h xs ys)

pub keys-SameSlots : (h h' : Heap) → SameSlots h h' → (b : ℕ) → (h' b).key ≡ (h b).key
keys-SameSlots h h' e b = ap (λ (s : Slot). s.key) (e b)

-- A write elsewhere.
pub sizes-write :
    (h : Heap) (a : ℕ) (it : RamItem) (l : List ℕ)
    → is_in a l ≡ false
    → sizes (write h a it) l ≡ sizes h l
sizes-write h a it [] e = refl
sizes-write h a it (b ∷ l) e = ground (arith, sizes-write h a it l)

pub contents-write :
    (h : Heap) (a : ℕ) (it : RamItem) (l : List ℕ)
    → is_in a l ≡ false
    → contents (write h a it) l ≡ contents h l
contents-write h a it [] e = refl
contents-write h a it (b ∷ l) e = ground (arith, contents-write h a it l)

-- A write of an item with the same content.
write-SameSlots :
    (h : Heap) (a : ℕ) (it : RamItem) → slot it ≡ slot (h a) → SameSlots h (write h a it)
write-SameSlots h a it e b = elim (Bool-cases (b == a)) [
  | inl same ↦ rw same (ground arith)
  | inr other ↦ rw other
]

set_prev?-SameSlots : (h : Heap) (p q : Option ℕ) → SameSlots h (set_prev? h p q)
set_prev?-SameSlots h none q b = refl
set_prev?-SameSlots h (some a) q b = write-SameSlots h a (record (h a) { prev = q }) refl b

set_next?-SameSlots : (h : Heap) (p q : Option ℕ) → SameSlots h (set_next? h p q)
set_next?-SameSlots h none q b = refl
set_next?-SameSlots h (some a) q b = write-SameSlots h a (record (h a) { next = q }) refl b

pub remove-SameSlots : (c : Ram) (a : ℕ) → SameSlots c.heap (remove c a).heap
unfolding remove
remove-SameSlots c a b =
    let h1 = set_next? c.heap (c.heap a).prev (c.heap a).next in
    let h2 = set_prev? h1 (h1 a).next (h1 a).prev in
    write-SameSlots h2 a (record (h2 a) { prev = none; next = none }) refl b
    ∙ (set_prev?-SameSlots h1 (h1 a).next (h1 a).prev b
        ∙ set_next?-SameSlots c.heap (c.heap a).prev (c.heap a).next b)

pub add_to_front-SameSlots : (c : Ram) (a : ℕ) → SameSlots c.heap (add_to_front c a).heap
unfolding add_to_front
add_to_front-SameSlots c a b =
    let h1 = set_prev c.heap a none in
    let h2 = set_next h1 a c.head in
    set_prev?-SameSlots h2 c.head (some a) b
    ∙ (write-SameSlots h1 a (record (h1 a) { next = c.head }) refl b
        ∙ write-SameSlots c.heap a (record (c.heap a) { prev = none }) refl b)

pub move_to_front-SameSlots : (c : Ram) (a : ℕ) → SameSlots c.heap (move_to_front c a).heap
unfolding move_to_front
move_to_front-SameSlots c a b = elim (Bool-cases (points_to c.head a)) [
  | inl e ↦ rw e
  | inr e ↦ rw e (add_to_front-SameSlots (remove c a) a b ∙ remove-SameSlots c a b)
]

-- The fields that the operations on the list do not touch.
abbrev pub Kept : Ram → Ram → Type 0
Kept c c' =
    (c'.items ≡ c.items)
    × (c'.total ≡ c.total)
    × (c'.fresh ≡ c.fresh)
    × (c'.max_bytes ≡ c.max_bytes)

pub remove-Kept : (c : Ram) (a : ℕ) → Kept c (remove c a)
unfolding remove
remove-Kept c a = (refl, refl, refl, refl)

pub add_to_front-Kept : (c : Ram) (a : ℕ) → Kept c (add_to_front c a)
unfolding add_to_front
add_to_front-Kept c a = (refl, refl, refl, refl)

pub move_to_front-Kept : (c : Ram) (a : ℕ) → Kept c (move_to_front c a)
unfolding move_to_front
move_to_front-Kept c a = ground (arith, remove-Kept c a, add_to_front-Kept (remove c a) a)

-- ===== src/Cache/Ram/Steps.antt =====
-- Each change of the cache of internal/wait0/cache/ram.go keeps its invariant.
use mathlib.Core.Logic.{◌≢◌}
use wait.Base.{
  delete-Unique, length-delete, ℕ, suc, ◌+◌, ◌%◌, ◌≡◌, refl, ap, sym, ◌∙◌, true, false, ◌||◌, none,
  List, [], ◌∷◌, ◌++◌, Str, arith, delete, length, ◌==◌, lookup-delete_ne, lookup-delete-some,
  two64, inl, inr, Bool-cases,
}
use wait.Cache.Ram.{RamItem, Heap, Ram, write, points_to, remove, move_to_front, drop_item}
use wait.Cache.Ram.Chain.{IsChain, remove-IsChain, add_to_front-IsChain}
use wait.Cache.Ram.Links.{
  is_in, Distinct-middle, is_in-append, is_in_middle, Seg-frame, SameLinks-write_self,
}
use wait.Cache.Lru.{Slot}
use wait.Cache.Ram.Slots.{
  sizes-write, keys-SameSlots, slot, sizes, sizes-SameSlots, remove-SameSlots, remove-Kept,
  move_to_front-Kept, move_to_front-SameSlots,
}
use wait.Cache.Ram.Valid.{IsIndex, IsRam, IsIndex-perm}

size_of_slot : (s t : RamItem) → slot s ≡ slot t → s.size ≡ t.size
size_of_slot s t e = ap (λ (s : Slot). s.size) e

pub is_in-middle :
    (b : ℕ) (xs : List ℕ) (a : ℕ) (ys : List ℕ)
    → is_in b (xs ++ a ∷ ys) ≡ ((a == b) || is_in b (xs ++ ys))
is_in-middle b [] a ys = refl
is_in-middle b (x ∷ xs) a ys = ground (arith, is_in-middle b xs a ys)

length-middle :
    (xs : List ℕ) (a : ℕ) (ys : List ℕ) → length (xs ++ a ∷ ys) ≡ suc (length (xs ++ ys))
length-middle [] a ys = refl
length-middle (x ∷ xs) a ys = omega (arith, length-middle xs a ys)

pub sizes-middle :
    (h : Heap) (xs : List ℕ) (a : ℕ) (ys : List ℕ)
    → sizes h (xs ++ a ∷ ys) ≡ (h a).size + sizes h (xs ++ ys)
sizes-middle h [] a ys = refl
sizes-middle h (x ∷ xs) a ys = omega (arith, sizes-middle h xs a ys)

move_to_front-IsChain :
    (c : Ram) (xs : List ℕ) (a : ℕ) (ys : List ℕ)
    → IsChain c (xs ++ a ∷ ys)
    → is_in a (xs ++ ys) ≡ false
    → IsChain (move_to_front c a) (a ∷ xs ++ ys)
unfolding move_to_front
move_to_front-IsChain c [] a ys ok e =
    let here : points_to c.head a ≡ true = rw ok.starts (ground arith) in rw here ok
move_to_front-IsChain c (x ∷ xs) a ys ok e =
    let other : points_to c.head a ≡ false = rw ok.starts (ground arith) in
    rw other
      (add_to_front-IsChain (remove c a) a (x ∷ xs ++ ys) (remove-IsChain c (x ∷ xs) a ys ok) e)

module _ (c : Ram) (xs : List ℕ) (a : ℕ) (ys : List ℕ) (ok : IsRam c (xs ++ a ∷ ys)) where
  listed : (b : ℕ) → is_in b (xs ++ ys) ≡ true → is_in b (xs ++ a ∷ ys) ≡ true
  listed b e = ground (arith, is_in-middle b xs a ys)

  -- The item at `a` is the only one with its key.
  pub key-ne : (b : ℕ) → is_in b (xs ++ ys) ≡ true → (c.heap b).key ≢ (c.heap a).key
  key-ne b e f =
      let here = ok.index.indexed a (is_in_middle xs a ys) in
      let there = ok.index.indexed b (listed b e) in
      let same : b ≡ a = cc (here, there, f) in
      let (before, behind, _) = Distinct-middle xs a ys ok.chain.distinct in
      ground (arith, is_in-append a xs ys, rw same at e)

  unlisted :
      (b : ℕ) (k : Str)
      → is_in b (xs ++ a ∷ ys) ≡ true
      → (c.heap b).key ≡ k
      → (c.heap a).key ≢ k
      → is_in b (xs ++ ys) ≡ true
  unlisted b k there key other = elim (Bool-cases (a == b)) [
    | inl e ↦ let same : a ≡ b = ground arith in absurd (other (rw same key))
    | inr e ↦ rw (is_in-middle, e) at there
  ]

  drop_item-IsIndex : IsIndex c.heap (delete (c.heap a).key c.items) (xs ++ ys)
  drop_item-IsIndex = record {
    indexed = λ b e.
        lookup-delete_ne (c.heap a).key (c.heap b).key c.items (λ f. key-ne b e (sym f))
        ∙ ok.index.indexed b (listed b e);
    covered = λ k b e.
        let (found, other) = lookup-delete-some (c.heap a).key k c.items b e in
        let (there, key) = ok.index.covered k b found in (unlisted b k there key other, key);
    counted = omega (
      arith,
      length-delete (c.heap a).key a c.items ok.index.unique
          (ok.index.indexed a (is_in_middle xs a ys)),
      length-middle xs a ys,
      ok.index.counted,
    );
    unique = delete-Unique (c.heap a).key c.items ok.index.unique;
  }

  key-write :
      (b : ℕ) (it : RamItem) → it.key ≡ (c.heap a).key → (write c.heap a it b).key ≡ (c.heap b).key
  key-write b it e = ground arith

  pub absent : is_in a (xs ++ ys) ≡ false
  absent =
      let (before, behind, _) = Distinct-middle xs a ys ok.chain.distinct in
      ground (arith, is_in-append a xs ys)

  sizes-written :
      (it : RamItem) → sizes (write c.heap a it) (xs ++ a ∷ ys) ≡ it.size + sizes c.heap (xs ++ ys)
  sizes-written it =
      ground
        (arith, sizes-middle (write c.heap a it) xs a ys, sizes-write c.heap a it (xs ++ ys) absent)

  -- The item leaves the list, the map and the count.
  pub drop_item-IsRam : IsRam (drop_item c a (c.heap a).key) (xs ++ ys)
  unfolding drop_item
  drop_item-IsRam =
      let r = remove-IsChain c xs a ys ok.chain in
      let (items, total, fresh, _) = remove-Kept c a in
      let same = remove-SameSlots c a in
      record {
        chain = record {
          linked = r.linked;
          starts = r.starts;
          ends = r.ends;
          distinct = r.distinct;
        };
        allocated = λ b e. rw fresh (ok.allocated b (listed b e));
        index = rw items (
            IsIndex-perm c.heap (remove c a).heap (delete (c.heap a).key c.items) (xs ++ ys)
              (xs ++ ys) (keys-SameSlots c.heap (remove c a).heap same) (λ b. refl) refl
              drop_item-IsIndex);
        summed = omega (
          arith,
          total,
          ok.summed,
          size_of_slot ((remove c a).heap a) (c.heap a) (same a),
          sizes-SameSlots c.heap (remove c a).heap (xs ++ ys) same,
          sizes-middle c.heap xs a ys,
        );
      }

  -- The item is written anew, under its key and at its place.
  pub write-IsRam :
      (it : RamItem) (t : ℕ)
      → it.key ≡ (c.heap a).key
      → it.prev ≡ (c.heap a).prev
      → it.next ≡ (c.heap a).next
      → t ≡ (it.size + sizes c.heap (xs ++ ys)) % two64
      → IsRam (record c { heap = write c.heap a it; total = t }) (xs ++ a ∷ ys)
  write-IsRam it t k p n e =
      let h = write c.heap a it in
      let same = λ (b : ℕ). key-write b it k in
      record {
        chain = record {
          linked =
              Seg-frame c.heap h none (xs ++ a ∷ ys) none
                (SameLinks-write_self c.heap a it (xs ++ a ∷ ys) p n) ok.chain.linked;
          starts = ok.chain.starts;
          ends = ok.chain.ends;
          distinct = ok.chain.distinct;
        };
        allocated = ok.allocated;
        index =
            IsIndex-perm c.heap h c.items (xs ++ a ∷ ys) (xs ++ a ∷ ys) same (λ b. refl) refl
              ok.index;
        summed = e ∙ ap (λ s. s % two64) (sym (sizes-written it));
      }

  -- The item moves to the front of the list.
  pub move_to_front-IsRam : IsRam (move_to_front c a) (a ∷ xs ++ ys)
  move_to_front-IsRam =
      let (items, total, fresh, _) = move_to_front-Kept c a in
      let same = move_to_front-SameSlots c a in
      let h = (move_to_front c a).heap in
      record {
        chain = move_to_front-IsChain c xs a ys ok.chain absent;
        allocated = λ b e. rw fresh (ok.allocated b (is_in-middle b xs a ys ∙ e));
        index = rw items (
            IsIndex-perm c.heap h c.items (xs ++ a ∷ ys) (a ∷ xs ++ ys)
              (keys-SameSlots c.heap h same) (λ b. sym (is_in-middle b xs a ys))
              (sym (length-middle xs a ys)) ok.index);
        summed = omega (
          arith,
          total,
          ok.summed,
          sizes-SameSlots c.heap h (a ∷ xs ++ ys) same,
          sizes-middle c.heap xs a ys,
        );
      }

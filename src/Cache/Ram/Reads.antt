-- ===== src/Cache/Ram/Reads.antt =====
-- `Peek`, `Get` and `Delete` of internal/wait0/cache/ram.go, at a key that the map lacks and at an
-- item of the list.
use wait.Base.{
  ℕ, ◌%◌, ◌≡◌, ◌≢◌, refl, ap, ◌∙◌, true, false, none, some, List, [], ◌∷◌, ◌++◌, Str, arith, lookup,
  str_eq_ne, str_eq_refl, two64, inl, inr, Bool-cases,
}
use wait.Cache.Lru.{Slot, find, without, lru_get, lru_peek}
use wait.Cache.Ram.{Heap, Ram, write, remove, peek, get, delete_key, drop_item, move_to_front}
use wait.Cache.Ram.Links.{is_in, is_in_middle}
use wait.Cache.Ram.Slots.{
  slot, contents, contents-write, contents-SameSlots, move_to_front-SameSlots, remove-SameSlots,
}
use wait.Cache.Ram.Steps.{
  key-ne, absent, drop_item-IsRam, write-IsRam, move_to_front-IsRam, sizes-middle,
}
use wait.Cache.Ram.Valid.{IsRam}

find_absent :
    (h : Heap) (k : Str) (l : List ℕ)
    → ((b : ℕ) → is_in b l ≡ true → (h b).key ≢ k)
    → find k (contents h l) ≡ none
unfolding find
find_absent h k [] ne = refl
find_absent h k (a ∷ l) ne =
    rw (str_eq_ne (h a).key k (ne a (ground arith)))
      (find_absent h k l (λ b e. ne b (ground arith)))

without_absent :
    (h : Heap) (k : Str) (l : List ℕ)
    → ((b : ℕ) → is_in b l ≡ true → (h b).key ≢ k)
    → without k (contents h l) ≡ contents h l
unfolding without
without_absent h k [] ne = refl
without_absent h k (a ∷ l) ne =
    rw (str_eq_ne (h a).key k (ne a (ground arith)))
      (ap (◌∷◌ (slot (h a))) (without_absent h k l (λ b e. ne b (ground arith))))

find_present :
    (h : Heap) (xs : List ℕ) (a : ℕ) (ys : List ℕ)
    → ((b : ℕ) → is_in b (xs ++ ys) ≡ true → (h b).key ≢ (h a).key)
    → find (h a).key (contents h (xs ++ a ∷ ys)) ≡ some (slot (h a))
unfolding find
find_present h [] a ys ne = rw str_eq_refl
find_present h (x ∷ xs) a ys ne =
    rw (str_eq_ne (h x).key (h a).key (ne x (ground arith)))
      (find_present h xs a ys (λ b e. ne b (ground arith)))

without_present :
    (h : Heap) (xs : List ℕ) (a : ℕ) (ys : List ℕ)
    → ((b : ℕ) → is_in b (xs ++ ys) ≡ true → (h b).key ≢ (h a).key)
    → without (h a).key (contents h (xs ++ a ∷ ys)) ≡ contents h (xs ++ ys)
unfolding without
without_present h [] a ys ne = rw str_eq_refl (without_absent h (h a).key ys ne)
without_present h (x ∷ xs) a ys ne =
    rw (str_eq_ne (h x).key (h a).key (ne x (ground arith)))
      (ap (◌∷◌ (slot (h x))) (without_present h xs a ys (λ b e. ne b (ground arith))))

module _ (c : Ram) (l : List ℕ) (ok : IsRam c l) (k : Str) where
  -- A key that the map lacks is no key of the list.
  module _ (missing : lookup k c.items ≡ none) where
    pub no_key : (b : ℕ) → is_in b l ≡ true → (c.heap b).key ≢ k
    no_key b e f = let there = ok.index.indexed b e in cc (there, f, missing)

    pub find_missing : find k (contents c.heap l) ≡ none
    find_missing = find_absent c.heap k l no_key

    pub without_missing : without k (contents c.heap l) ≡ contents c.heap l
    without_missing = without_absent c.heap k l no_key

module _ (c : Ram) (xs : List ℕ) (a : ℕ) (ys : List ℕ) (ok : IsRam c (xs ++ a ∷ ys)) where
  pub found : lookup (c.heap a).key c.items ≡ some a
  found = ok.index.indexed a (is_in_middle xs a ys)

  pub found_slot : find (c.heap a).key (contents c.heap (xs ++ a ∷ ys)) ≡ some (slot (c.heap a))
  found_slot = find_present c.heap xs a ys (key-ne c xs a ys ok)

  pub others : without (c.heap a).key (contents c.heap (xs ++ a ∷ ys)) ≡ contents c.heap (xs ++ ys)
  others = without_present c.heap xs a ys (key-ne c xs a ys ok)

  pub peek_present :
      peek c (c.heap a).key ≡ lru_peek (contents c.heap (xs ++ a ∷ ys)) (c.heap a).key
  unfolding peek lru_peek
  peek_present = rw (found, peek, found_slot, lru_peek)

  delete_found : delete_key c (c.heap a).key ≡ drop_item c a (c.heap a).key
  unfolding delete_key
  delete_found = rw (found, delete_key)

  dropped : contents (drop_item c a (c.heap a).key).heap (xs ++ ys) ≡ contents c.heap (xs ++ ys)
  unfolding drop_item
  dropped = contents-SameSlots c.heap (remove c a).heap (xs ++ ys) (remove-SameSlots c a)

  pub delete_present :
      (l' : List ℕ) × IsRam (delete_key c (c.heap a).key) l'
      × (contents (delete_key c (c.heap a).key).heap l'
          ≡ without (c.heap a).key (contents c.heap (xs ++ a ∷ ys)))
  delete_present = rw (delete_found, others) (xs ++ ys, drop_item-IsRam c xs a ys ok, dropped)

  module _ (now : ℕ) where
    -- The access time of the item is the only thing that a read writes.
    stamped : Ram
    stamped = record c { heap = write c.heap a (record (c.heap a) { last_access = now }) }

    stamped-IsRam : IsRam stamped (xs ++ a ∷ ys)
    unfolding stamped
    stamped-IsRam =
        write-IsRam c xs a ys ok (record (c.heap a) { last_access = now }) c.total refl refl refl
          (ok.summed ∙ ap (λ s. s % two64) (sizes-middle c.heap xs a ys))

    moved :
        contents (move_to_front stamped a).heap (a ∷ xs ++ ys)
        ≡ record (slot (c.heap a)) { last_access = now } ∷ contents c.heap (xs ++ ys)
    moved =
        contents-SameSlots stamped.heap (move_to_front stamped a).heap (a ∷ xs ++ ys)
          (move_to_front-SameSlots stamped a)
        ∙ rest
      where
        rest :
            contents stamped.heap (a ∷ xs ++ ys)
            ≡ record (slot (c.heap a)) { last_access = now } ∷ contents c.heap (xs ++ ys)
        rest =
            unfold stamped in
            ground (
              arith,
              contents-write c.heap a (record (c.heap a) { last_access = now }) (xs ++ ys)
                  (absent c xs a ys ok),
            )

    get_miss :
        (c.heap a).ent.inactive ≡ true
        → (get c (c.heap a).key now ≡ (c, none))
          × (lru_get (contents c.heap (xs ++ a ∷ ys)) (c.heap a).key now
              ≡ (contents c.heap (xs ++ a ∷ ys), none))
    unfolding get lru_get
    get_miss e = (rw (found, get, e), rw (found_slot, lru_get, e))

    get_hit :
        (c.heap a).ent.inactive ≡ false
        → (get c (c.heap a).key now
            ≡ (move_to_front stamped a, some ((move_to_front stamped a).heap a).ent))
          × (lru_get (contents c.heap (xs ++ a ∷ ys)) (c.heap a).key now ≡ (
            record (slot (c.heap a)) { last_access = now } ∷ contents c.heap (xs ++ ys),
            some (c.heap a).ent,
          ))
    unfolding get lru_get stamped
    get_hit e = (rw (found, get, e), rw (found_slot, lru_get, e, others))

    served : ((move_to_front stamped a).heap a).ent ≡ (c.heap a).ent
    served =
        ap (λ (s : Slot). s.ent) (move_to_front-SameSlots stamped a a)
        ∙ (unfold stamped in ground arith)

    pub get_present :
        (l' : List ℕ) × IsRam (get c (c.heap a).key now).0 l'
        × (contents (get c (c.heap a).key now).0.heap l'
            ≡ (lru_get (contents c.heap (xs ++ a ∷ ys)) (c.heap a).key now).0)
        × ((get c (c.heap a).key now).1
            ≡ (lru_get (contents c.heap (xs ++ a ∷ ys)) (c.heap a).key now).1)
    get_present = elim (Bool-cases (c.heap a).ent.inactive) [
      | inl e ↦ let (miss, same) = get_miss e in rw (miss, same) (xs ++ a ∷ ys, ok, refl, refl)
      | inr e ↦
          let (hit, same) = get_hit e in
          let ok' = move_to_front-IsRam stamped xs a ys stamped-IsRam in
          rw (hit, same) (a ∷ xs ++ ys, ok', moved, ap some served)
    ]

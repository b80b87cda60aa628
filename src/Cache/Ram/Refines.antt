-- ===== src/Cache/Ram/Refines.antt =====
-- `Peek`, `Get` and `Delete` of internal/wait0/cache/ram.go implement the list of Cache/Lru.antt.
use mathlib.Core.Path.{subst, subst₂}
use wait.Base.{ℕ, ◌≡◌, refl, sym, none, inl, inr, List, ◌∷◌, ◌++◌, Str, lookup, Option-cases}
use wait.Cache.Lru.{without, lru_get, lru_peek}
use wait.Cache.Ram.{Ram, peek, get, delete_key}
use wait.Cache.Ram.Links.{is_in-split}
use wait.Cache.Ram.Reads.{find_missing, without_missing, peek_present, delete_present, get_present}
use wait.Cache.Ram.Slots.{contents}
use wait.Cache.Ram.Valid.{IsRam}

-- A key is missing from the map, or it is the key of an item of the list.
module _ (c : Ram) (P : List ℕ → Str → Type 0) where
  pub at_key :
      (l : List ℕ) (k : Str)
      → IsRam c l
      → (lookup k c.items ≡ none → P l k)
      → ((xs : List ℕ) (a : ℕ) (ys : List ℕ)
          → IsRam c (xs ++ a ∷ ys)
          → P (xs ++ a ∷ ys) (c.heap a).key)
      → P l k
  at_key l k ok missing present = elim (Option-cases (lookup k c.items)) [
    | inl e ↦ missing e
    | inr (a, e) ↦
        let (listed, key) = ok.index.covered k a e in
        let (xs, ys, split) = is_in-split a l listed in
        subst₂ P (sym split) key (present xs a ys (subst (IsRam c) split ok))
  ]

module _ (c : Ram) (l : List ℕ) (ok : IsRam c l) (k : Str) where
  -- From a cache whose list, map and count are in order, `Peek` reads the entry that the list holds
  -- under the key.
  pub peek-lru_peek : peek c k ≡ lru_peek (contents c.heap l) k
  peek-lru_peek =
      at_key c (λ l k. peek c k ≡ lru_peek (contents c.heap l) k) l k ok peek_missing
        (peek_present c)
    where
      peek_missing : lookup k c.items ≡ none → peek c k ≡ lru_peek (contents c.heap l) k
      peek_missing e =
          let there = find_missing c l ok k e in
          unfold peek lru_peek in rw (e, peek, there, lru_peek)

  -- From a cache in order, `Get` keeps the pointers, the map and the count in order, returns what the list returns, and
  -- leaves the items that the list has after the read, in the same order: an active entry moves to
  -- the front with the new access time, anything else changes nothing.
  pub get-lru_get :
      (now : ℕ)
      → (l' : List ℕ) × IsRam (get c k now).0 l'
        × (contents (get c k now).0.heap l' ≡ (lru_get (contents c.heap l) k now).0)
        × ((get c k now).1 ≡ (lru_get (contents c.heap l) k now).1)
  get-lru_get now =
      at_key c
        (λ l k.
          (l' : List ℕ) × IsRam (get c k now).0 l'
          × (contents (get c k now).0.heap l' ≡ (lru_get (contents c.heap l) k now).0)
          × ((get c k now).1 ≡ (lru_get (contents c.heap l) k now).1))
        l k ok missing (λ xs a ys o. get_present c xs a ys o now)
    where
      get_none : lookup k c.items ≡ none → get c k now ≡ (c, none)
      get_none e = unfold get in rw (e, get)

      lru_none :
          lookup k c.items ≡ none → lru_get (contents c.heap l) k now ≡ (contents c.heap l, none)
      lru_none e = let there = find_missing c l ok k e in unfold lru_get in rw (there, lru_get)

      missing :
          lookup k c.items ≡ none
          → (l' : List ℕ) × IsRam (get c k now).0 l'
            × (contents (get c k now).0.heap l' ≡ (lru_get (contents c.heap l) k now).0)
            × ((get c k now).1 ≡ (lru_get (contents c.heap l) k now).1)
      missing e = rw (get_none e, lru_none e) (l, ok, refl, refl)

  -- From a cache in order, `Delete` keeps it in order, takes the key's item out of the list, and
  -- leaves the others in their order.
  pub delete_key-without :
      (l' : List ℕ) × IsRam (delete_key c k) l'
      × (contents (delete_key c k).heap l' ≡ without k (contents c.heap l))
  delete_key-without =
      at_key c
        (λ l k.
          (l' : List ℕ) × IsRam (delete_key c k) l'
          × (contents (delete_key c k).heap l' ≡ without k (contents c.heap l)))
        l k ok missing (delete_present c)
    where
      missing :
          lookup k c.items ≡ none
          → (l' : List ℕ) × IsRam (delete_key c k) l'
            × (contents (delete_key c k).heap l' ≡ without k (contents c.heap l))
      missing e =
          let same : delete_key c k ≡ c = unfold delete_key in rw (e, delete_key) in
          rw (same, without_missing c l ok k e) (l, ok, refl)

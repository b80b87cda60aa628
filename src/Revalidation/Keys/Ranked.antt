-- ===== src/Revalidation/Keys/Ranked.antt =====
-- The keys that internal/wait0/revalidation/controller.go, KeysByLastAccessDesc, returns: their order
-- and their members.
use wait.Base.{
  ℕ, ◌≡◌, refl, ap, ◌∙◌, Bool, false, ◌&&◌, Option, none, some, List, [], ◌∷◌, Str, Dict, lookup,
  keys, map, member, All, Distinct, str_eq_iff, Bool-cases, inl, inr, slt, arith,
}
use wait.Revalidation.Keys.{
  str_lt, before, put_in, sort_items, fits, matching, keys_by_last_access_desc,
}
use wait.Revalidation.Keys.Order.{IsTimed, Descends, sort_items-All, sort_items-Descends}

matching-All :
    (P : Str × ℕ → Type 0) (test : Option (Str → Bool)) (access : Dict ℕ)
    → All P access
    → All P (matching test access)
unfolding matching
matching-All P test [] a = tt
matching-All P test ((k, ts) ∷ access) a = elim (Bool-cases (fits test k)) [
  | inl e ↦ simp (e, matching) (a.0, matching-All P test access a.1)
  | inr e ↦ simp (e, matching) (matching-All P test access a.1)
]

-- The key has that time in the map.
abbrev Has : Dict ℕ → Str × ℕ → Type 0
Has access y = lookup y.0 access ≡ some y.1

Has-later :
    (k : Str) (ts : ℕ) (access xs : Dict ℕ)
    → member k (keys xs) ≡ false
    → All (Has access) xs
    → All (Has ((k, ts) ∷ access)) xs
unfolding member lookup
Has-later k ts access [] e a = tt
Has-later k ts access ((j, us) ∷ xs) e a = (
  ground (arith, a.0, e, str_eq_iff k j, str_eq_iff j k),
  Has-later k ts access xs ground (arith, e) a.1,
)

Has-all : (access : Dict ℕ) → Distinct (keys access) → All (Has access) access
unfolding Distinct lookup
Has-all [] d = tt
Has-all ((k, ts) ∷ access) d =
    (ground (arith, str_eq_iff k k), Has-later k ts access access d.0 (Has-all access d.1))

-- The time of a key, 0 where it has none.
unfoldable pub access_of : Dict ℕ → Str → ℕ
access_of access k = elim (lookup k access) [ none ↦ 0 | some ts ↦ ts ]

-- An access of the second key is not later than that of the first, and at one time the second key
-- is not smaller.
abbrev pub Follows : Dict ℕ → Str → Str → Type 0
Follows access k j =
    (slt (access_of access k) (access_of access j) ≡ false)
    × (access_of access k ≡ access_of access j → str_lt j k ≡ false)

-- Every key of the list follows those in front of it, by the times of the map.
unfoldable pub Ranked : Dict ℕ → List Str → Type 0
Ranked access [] = Unit
Ranked access (k ∷ ks) = All (Follows access k) ks × Ranked access ks

Follows-before :
    (access : Dict ℕ) (k j : Str)
    → before (j, access_of access j) (k, access_of access k) ≡ false
    → Follows access k j
unfolding before
Follows-before access k j h = (ground (arith, h), λ e. ground (arith, h, e))

access_of-Has : (access : Dict ℕ) (y : Str × ℕ) → Has access y → access_of access y.0 ≡ y.1
unfolding access_of
access_of-Has access y h = ap (λ o. elim o [ none ↦ 0 | some ts ↦ ts ]) h

keys_All :
    (access : Dict ℕ) (x : Str × ℕ) (ys : List (Str × ℕ))
    → Has access x
    → All (Has access) ys
    → All (λ y. before y x ≡ false) ys
    → All (Follows access x.0) (map (λ y. y.0) ys)
keys_All access x [] hx hs a = tt
keys_All access x (y ∷ ys) hx hs a = (
  Follows-before access x.0 y.0 (rw (access_of-Has access x hx, access_of-Has access y hs.0) a.0),
  keys_All access x ys hx hs.1 a.1,
)

Descends-Ranked :
    (access : Dict ℕ) (xs : List (Str × ℕ))
    → All (Has access) xs
    → Descends xs
    → Ranked access (map (λ y. y.0) xs)
unfolding Descends Ranked
Descends-Ranked access [] hs d = tt
Descends-Ranked access (x ∷ xs) hs d =
    (keys_All access x xs hs.0 hs.1 d.0, Descends-Ranked access xs hs.1 d.1)

member-put_in :
    (k : Str) (x : Str × ℕ) (xs : List (Str × ℕ))
    → member k (map (λ y. y.0) (put_in x xs)) ≡ member k (map (λ y. y.0) (x ∷ xs))
unfolding put_in member
member-put_in k x [] = refl
member-put_in k x (y ∷ ys) = ground (arith, member-put_in k x ys)

member-sort_items :
    (k : Str) (xs : List (Str × ℕ))
    → member k (map (λ y. y.0) (sort_items xs)) ≡ member k (map (λ y. y.0) xs)
unfolding sort_items member
member-sort_items k [] = refl
member-sort_items k (x ∷ xs) =
    ground (arith, member-put_in k x (sort_items xs), member-sort_items k xs)

member-matching :
    (k : Str) (test : Option (Str → Bool)) (access : Dict ℕ)
    → member k (map (λ y. y.0) (matching test access)) ≡ (fits test k && member k (keys access))
unfolding matching member
member-matching k test [] = ground arith
member-matching k test ((j, ts) ∷ access) =
    ground (arith, member-matching k test access, str_eq_iff j k, str_eq_iff k j)

put_in-Distinct :
    (x : Str × ℕ) (xs : List (Str × ℕ))
    → member x.0 (map (λ y. y.0) xs) ≡ false
    → Distinct (map (λ y. y.0) xs)
    → Distinct (map (λ y. y.0) (put_in x xs))
unfolding put_in member Distinct
put_in-Distinct x [] e d = (refl, tt)
put_in-Distinct x (y ∷ ys) e d = elim (Bool-cases (before y x)) [
  | inl b ↦
      let head : member y.0 (map (λ z. z.0) (put_in x ys)) ≡ false =
        ground (arith, member-put_in y.0 x ys, e, d.0, str_eq_iff y.0 x.0, str_eq_iff x.0 y.0) in
      simp (b, put_in) (head, put_in-Distinct x ys ground (arith, e) d.1)
  | inr b ↦ simp (b, put_in) (e, d)
]

sort_items-Distinct :
    (xs : List (Str × ℕ)) → Distinct (map (λ y. y.0) xs) → Distinct (map (λ y. y.0) (sort_items xs))
unfolding sort_items Distinct
sort_items-Distinct [] d = tt
sort_items-Distinct (x ∷ xs) d =
    put_in-Distinct x (sort_items xs) (member-sort_items x.0 xs ∙ d.0) (sort_items-Distinct xs d.1)

matching-Distinct :
    (test : Option (Str → Bool)) (access : Dict ℕ)
    → Distinct (keys access)
    → Distinct (map (λ y. y.0) (matching test access))
unfolding matching Distinct
matching-Distinct test [] d = tt
matching-Distinct test ((k, ts) ∷ access) d = elim (Bool-cases (fits test k)) [
  | inl e ↦
      let head : member k (map (λ z. z.0) (matching test access)) ≡ false =
        ground (arith, member-matching k test access, d.0) in
      simp (e, matching) (head, matching-Distinct test access d.1)
  | inr e ↦ simp (e, matching) (matching-Distinct test access d.1)
]

-- Of a map of times, words, with distinct keys, KeysByLastAccessDesc returns exactly the keys that
-- the rule matches, each once, and none of them comes after one with an earlier access, nor, at one
-- time, after a larger key.
pub keys_by_last_access_desc-Ranked :
    (test : Option (Str → Bool)) (access : Dict ℕ)
    → All IsTimed access
    → Distinct (keys access)
    → ((k : Str)
        → member k (keys_by_last_access_desc test access) ≡ (fits test k && member k (keys access)))
      × Distinct (keys_by_last_access_desc test access)
      × Ranked access (keys_by_last_access_desc test access)
unfolding keys_by_last_access_desc
keys_by_last_access_desc-Ranked test access ts d = (
  λ k. member-sort_items k (matching test access) ∙ member-matching k test access,
  sort_items-Distinct (matching test access) (matching-Distinct test access d),
  Descends-Ranked access (sort_items (matching test access))
      (sort_items-All (Has access) (matching test access)
        (matching-All (Has access) test access (Has-all access d)))
      (sort_items-Descends (matching test access) (matching-All IsTimed test access ts)),
)

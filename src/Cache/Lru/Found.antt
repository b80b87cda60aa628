-- ===== src/Cache/Lru/Found.antt =====
-- What a read of the list of internal/wait0/cache/ram.go finds after a deletion and after a store.
use wait.Base.{
  ◌≡◌, sym, ap, ◌∙◌, ◌⊎◌, inl, inr, ℕ, none, some, [], ◌∷◌, ◌++◌, Str, str_eq, str_eq_iff,
  if◌then◌else◌, Bool-cases, Option-cases, arith,
}
use wait.Cache.Entry.{Entry, Sink}
use wait.Cache.Lru.{Slot, Lru, Stores, too_big, replaced, added, find, without, lru_peek}

find-without :
    (k j : Str) (l : Lru) → find k (without j l) ≡ (if str_eq j k then none else find k l)
unfolding find without
find-without k j [] = ground arith
find-without k j (s ∷ l) =
    ground (arith, find-without k j l, str_eq_iff s.key j, str_eq_iff s.key k, str_eq_iff j k)

pub lru_peek-without :
    (k j : Str) (l : Lru) → lru_peek (without j l) k ≡ (if str_eq j k then none else lru_peek l k)
unfolding lru_peek
lru_peek-without k j l = elim (Bool-cases (str_eq j k)) [
  | inl e ↦ simp (e, find-without k j l, lru_peek)
  | inr e ↦ simp (e, find-without k j l, lru_peek)
]

find_append : (k : Str) (l m : Lru) (s : Slot) → find k l ≡ some s → find k (l ++ m) ≡ some s
unfolding find
find_append k [] m s e = absurd cc
find_append k (t ∷ l) m s e = ground (arith, find_append k l m s)

lru_peek_append :
    (k : Str) (l m : Lru) (e : Entry) → lru_peek l k ≡ some e → lru_peek (l ++ m) k ≡ some e
unfolding lru_peek
lru_peek_append k l m e h = elim (Option-cases (find k l)) [
  | inl f ↦ absurd (let h' = simp (f, lru_peek) at h in cc)
  | inr (s, f) ↦ simp (find_append k l m s f, lru_peek) (let h' = simp (f, lru_peek) at h in h')
]

lru_peek_cons :
    (k : Str) (n : Slot) (l : Lru)
    → lru_peek (n ∷ l) k ≡ (if str_eq n.key k then some n.ent else lru_peek l k)
unfolding lru_peek find
lru_peek_cons k n l = elim (Bool-cases (str_eq n.key k)) [
  | inl e ↦ simp (e, lru_peek, find)
  | inr e ↦ simp (e, lru_peek, find)
]

-- After a store a key has the entry that was stored, if the store was under it, or the entry it had.
pub Stores-lru_peek :
    (limit : ℕ) (new : Slot) (old : Lru) (s : Sink) (l : Lru) (s' : Sink) (k : Str) (e : Entry)
    → Stores limit new old s l s'
    → lru_peek l k ≡ some e
    → (e ≡ new.ent) ⊎ (lru_peek old k ≡ some e)
Stores-lru_peek limit new old s l s' k e (too_big _ is _) h =
    inr (ap (λ x. lru_peek x k) (sym is) ∙ h)
Stores-lru_peek limit new old s l s' k e (replaced _ t _ is _) h =
    let h' =
      sym (lru_peek_cons k new (without new.key old)) ∙ (ap (λ x. lru_peek x k) (sym is) ∙ h) in
    ground (arith, h', lru_peek-without k new.key old)
Stores-lru_peek limit new old s l s' k e (added _ _ kept gone was is _ _ _) h =
    let h' = sym (lru_peek_cons k new kept) ∙ (ap (λ x. lru_peek x k) (sym is) ∙ h) in
    elim (Bool-cases (str_eq new.key k)) [
      | inl eq ↦ inl (ground (arith, h', eq))
      | inr ne ↦
          inr (ap (λ x. lru_peek x k) was ∙ lru_peek_append k kept gone e (ground (arith, h', ne)))
    ]

-- ===== src/Cache/Lru.antt =====
-- What the cache in memory (internal/wait0/cache/ram.go) promises: a list of entries, most recently
-- used first, that knows no pointer and no map.
pub mod Found
use mathlib.Core.List.{reverse}
use wait.Base.{
  ◌&&◌, ◌⊎◌, ◌%◌, two64, add64, slt, is_pos, ℕ, ◌+◌, ◌≡◌, refl, Bool, true, false, Option, none,
  some, List, [], ◌∷◌, ◌++◌, Str, str_eq, if◌then◌else◌,
}
use wait.Cache.Entry.{Entry, Sink, offer}

pub record Slot : Type 0 where
  pub key : Str
  pub ent : Entry
  pub size : ℕ
  pub stats_size : ℕ
  pub last_access : ℕ

abbrev pub Lru : Type 0
Lru = List Slot

unfoldable pub find : Str → Lru → Option Slot
find k [] = none
find k (s ∷ l) = if str_eq s.key k then some s else find k l

unfoldable pub without : Str → Lru → Lru
without k [] = []
without k (s ∷ l) = if str_eq s.key k then without k l else s ∷ without k l

-- A read of an active entry makes it the most recent one; nothing else changes anything.
unfoldable pub lru_get : Lru → Str → ℕ → Lru × Option Entry
lru_get l k now = elim (find k l) [
  | none ↦ (l, none)
  | some s ↦
      if s.ent.inactive
      then (l, none)
      else (record s { last_access = now } ∷ without k l, some s.ent)
]

-- The entry of a key, whether active or not.
unfoldable pub lru_peek : Lru → Str → Option Entry
lru_peek l k = elim (find k l) [ none ↦ none | some s ↦ some s.ent ]

abbrev pub bytes : Lru → ℕ
bytes [] = 0
bytes (s ∷ l) = s.size + bytes l

-- The entries of a list offered to the disk, the first of the list first.
abbrev pub offer_all : Sink → Lru → Sink
offer_all sink [] = sink
offer_all sink (s ∷ l) = offer_all (offer sink s.key s.ent) l

pub offer_all-append :
    (sink : Sink) (l m : Lru) → offer_all sink (l ++ m) ≡ offer_all (offer_all sink l) m
offer_all-append sink [] m = refl
offer_all-append sink (s ∷ l) m = offer_all-append (offer sink s.key s.ent) l m

-- A store of `sz` bytes beside `total` bytes goes over the limit; without a limit nothing does.
abbrev pub goes_over : ℕ → ℕ → ℕ → Bool
goes_over limit total sz = is_pos limit && slt limit (add64 total sz)

-- What a `Put` of the slot `new` may do to the list and to the disk's queue.
pub data Stores (limit : ℕ) (new : Slot) (old : Lru) (s : Sink) (l : Lru) (s' : Sink) : Type 0 where
  -- An entry that is larger than the limit goes to the disk alone.
  too_big :
      (is_pos limit && slt limit new.size) ≡ true
      → l ≡ old
      → s' ≡ offer s new.key new.ent
      → Stores limit new old s l s'
  -- A known key is written anew in front of the others, and nothing is evicted.
  replaced :
      (is_pos limit && slt limit new.size) ≡ false
      → (t : Slot) → find new.key old ≡ some t
      → l ≡ new ∷ without new.key old
      → s' ≡ s
      → Stores limit new old s l s'
  -- A new key goes in front of what is kept; the end of the list goes to the disk, the last entry
  -- first, until the new entry fits or the list is empty, and stays where it fits at once.
  added :
      (is_pos limit && slt limit new.size) ≡ false
      → find new.key old ≡ none
      → (kept gone : Lru) → old ≡ kept ++ gone
      → l ≡ new ∷ kept
      → s' ≡ offer_all s (reverse gone)
      → (goes_over limit (bytes kept % two64) new.size ≡ false) ⊎ (kept ≡ [])
      → (goes_over limit (bytes old % two64) new.size ≡ false → gone ≡ [])
      → Stores limit new old s l s'

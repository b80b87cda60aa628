-- ===== src/Cache/Ram/Valid.antt =====
-- The invariant of internal/wait0/cache/ram.go: the pointers spell a list of the items, the map is
-- an index of that list, and the byte count is the sum of the items' sizes.
use wait.Base.{
  Unique, ℕ, ◌%◌, ◌<◌, ◌≡◌, refl, sym, ◌∙◌, true, some, List, [], Str, Dict, arith, lookup, length,
  two64,
}
use wait.Cache.Ram.{Heap, Ram, new_ram}
use wait.Cache.Ram.Chain.{IsChain}
use wait.Cache.Ram.Links.{is_in}
use wait.Cache.Ram.Slots.{sizes}

-- The map holds the items at `l`, each under its own key, and nothing else.
pub record IsIndex (h : Heap) (items : Dict ℕ) (l : List ℕ) : Type 0 where
  pub indexed : (a : ℕ) → is_in a l ≡ true → lookup (h a).key items ≡ some a
  pub covered : (k : Str) (a : ℕ) → lookup k items ≡ some a → (is_in a l ≡ true) × ((h a).key ≡ k)
  pub counted : length items ≡ length l
  pub unique : Unique items

pub record IsRam (c : Ram) (l : List ℕ) : Type 0 where
  pub chain : IsChain c l
  pub allocated : (a : ℕ) → is_in a l ≡ true → a < c.fresh
  pub index : IsIndex c.heap c.items l
  pub summed : c.total ≡ sizes c.heap l % two64

-- An order of the list does not matter to the index.
pub IsIndex-perm :
    (h h' : Heap) (items : Dict ℕ) (l l' : List ℕ)
    → ((a : ℕ) → (h' a).key ≡ (h a).key)
    → ((a : ℕ) → is_in a l' ≡ is_in a l)
    → length l' ≡ length l
    → IsIndex h items l
    → IsIndex h' items l'
IsIndex-perm h h' items l l' same perm len ix = record {
  indexed = λ a e. rw (same a) (ix.indexed a (sym (perm a) ∙ e));
  covered = λ k a e. let (listed, key) = ix.covered k a e in (perm a ∙ listed, same a ∙ key);
  counted = ix.counted ∙ sym len;
  unique = ix.unique;
}

-- The empty cache.
pub new_ram-IsRam : (max_bytes : ℕ) → IsRam (new_ram max_bytes) []
unfolding new_ram lookup
new_ram-IsRam max_bytes = record {
  chain = record { linked = tt; starts = refl; ends = refl; distinct = tt };
  allocated = λ a e. absurd (ground arith);
  index = record {
    indexed = λ a e. absurd (ground arith);
    covered = λ k a e. absurd (ground arith);
    counted = refl;
    unique = tt;
  };
  summed = refl;
}

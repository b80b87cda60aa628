-- ===== src/Revalidation/Keys.antt =====
-- The keys that a warmup queues: internal/wait0/revalidation/controller.go, KeysByLastAccessDesc and
-- AllKeysSnapshot, over the two caches as internal/wait0/revalidation_runtime_adapter.go joins them.
-- The keys of a map are distinct, so the order of the sort is total and every sort gives one list.
pub mod Order
pub mod Ranked
pub mod Tests
pub mod Warm
use wait.Base.{
  ℕ, ◌≡◌, Bool, true, false, not, ◌&&◌, ◌||◌, Option, none, some, List, [], ◌∷◌, ◌++◌, Str, Dict,
  lookup, insert, keys, map, member, unique_from, if◌then◌else◌, ltb, slt, ◌==◌,
}
use wait.Cache.Ram.{ram_keys}
use wait.Cache.Ram as Memory
use wait.Cache.Disk.{Platform, disk_keys}
use wait.Cache.Disk as Stored
use wait.Proxy.{Service}

-- `<` on strings: that of their bytes in UTF-8, which is that of their code points.
unfoldable pub str_lt : Str → Str → Bool
str_lt [] [] = false
str_lt [] (b ∷ t) = true
str_lt (a ∷ s) [] = false
str_lt (a ∷ s) (b ∷ t) = let rest = str_lt s t in if a == b then rest else ltb a b

-- A later access comes first, and then the smaller key.
unfoldable pub before : Str × ℕ → Str × ℕ → Bool
before (k, ts) (j, us) = if ts == us then str_lt k j else slt us ts

-- `sort.Slice` by that order.
unfoldable pub put_in : Str × ℕ → List (Str × ℕ) → List (Str × ℕ)
put_in x [] = x ∷ []
put_in x (y ∷ ys) = let rest = put_in x ys in if before y x then y ∷ rest else x ∷ y ∷ ys

unfoldable pub sort_items : List (Str × ℕ) → List (Str × ℕ)
sort_items [] = []
sort_items (x ∷ xs) = put_in x (sort_items xs)

-- `sort.Strings`
unfoldable pub put_string : Str → List Str → List Str
put_string x [] = x ∷ []
put_string x (y ∷ ys) = let rest = put_string x ys in if str_lt y x then y ∷ rest else x ∷ y ∷ ys

unfoldable pub sort_strings : List Str → List Str
sort_strings [] = []
sort_strings (x ∷ xs) = put_string x (sort_strings xs)

-- `rule.Matches`, which may be nil.
unfoldable pub fits : Option (Str → Bool) → Str → Bool
fits none k = true
fits (some test) k = test k

unfoldable pub matching : Option (Str → Bool) → Dict ℕ → List (Str × ℕ)
matching test [] = []
matching test ((k, ts) ∷ access) =
    let rest = matching test access in if fits test k then (k, ts) ∷ rest else rest

-- One key of the cache in memory: the later access counts.
unfoldable pub newer : Str → ℕ → Dict ℕ → Dict ℕ
newer k ts out = elim (lookup k out) [
  | none ↦ insert k ts out
  | some cur ↦ if slt cur ts then insert k ts out else out
]

unfoldable pub merge_newer : Dict ℕ → Dict ℕ → Dict ℕ
merge_newer [] out = out
merge_newer ((k, ts) ∷ ram) out = merge_newer ram (newer k ts out)

unfoldable pub keys_by_last_access_desc : Option (Str → Bool) → Dict ℕ → List Str
keys_by_last_access_desc test access = map (λ x. x.0) (sort_items (matching test access))

module _ (p : Platform) where
  -- `SnapshotAccessTimes` of the adapter.
  unfoldable pub snapshot_access : Service p → Dict ℕ
  snapshot_access s =
      merge_newer (Memory.snapshot_access_times s.ram) (Stored.snapshot_access_times p s.disk)

  -- `AllKeys` of the adapter, without its order, sorted.
  unfoldable pub all_keys_snapshot : Service p → List Str
  all_keys_snapshot s = sort_strings (unique_from [] (ram_keys s.ram ++ disk_keys p s.disk))

  -- The keys that a warmup of a rule queues.
  unfoldable pub warm_keys : Option (Str → Bool) → Service p → List Str
  warm_keys test s = keys_by_last_access_desc test (snapshot_access s)

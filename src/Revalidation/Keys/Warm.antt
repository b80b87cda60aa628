-- ===== src/Revalidation/Keys/Warm.antt =====
-- The keys that a warmup of a rule queues, over the two caches: KeysByLastAccessDesc of
-- internal/wait0/revalidation/controller.go on the times that SnapshotAccessTimes of
-- internal/wait0/revalidation_runtime_adapter.go joins.
use wait.Base.{
  ℕ, ◌≡◌, refl, sym, ap, ◌∙◌, Bool, ◌&&◌, ◌||◌, Option, none, some, [], ◌∷◌, Str, Dict, lookup,
  insert, lookup-insert, keys, member, member-keys, is_some, All, Unique, Distinct, str_eq,
  str_eq_iff, if◌then◌else◌, slt, arith,
}
use wait.Cache.Ram.{ram_keys, map_values}
use wait.Cache.Ram as Memory
use wait.Cache.Disk.{Platform, disk_keys, DiskMeta}
use wait.Cache.Disk as Stored
use wait.Proxy.{Service}
use wait.Proxy.Store.{IsService}
use wait.Revalidation.Keys.{fits, newer, merge_newer, snapshot_access, warm_keys}
use wait.Revalidation.Keys.Order.{IsTimed}
use wait.Revalidation.Keys.Ranked.{Ranked, keys_by_last_access_desc-Ranked}

replace-Unique : (k : Str) (ts : ℕ) (m : Dict ℕ) → Unique m → Unique (insert k ts m)
unfolding insert lookup
replace-Unique k ts [] u = (refl, tt)
replace-Unique k ts ((j, us) ∷ m) u =
    ground (arith, replace-Unique k ts m, lookup-insert k j ts m, str_eq_iff k j, str_eq_iff j k)

insert-All :
    (k : Str) (ts : ℕ) (m : Dict ℕ) → IsTimed (k, ts) → All IsTimed m → All IsTimed (insert k ts m)
unfolding insert
insert-All k ts [] h a = (h, tt)
insert-All k ts ((j, us) ∷ m) h a = ground (arith, h, a, insert-All k ts m)

newer-Unique : (k : Str) (ts : ℕ) (out : Dict ℕ) → Unique out → Unique (newer k ts out)
unfolding newer
newer-Unique k ts out u = ground (arith, u, replace-Unique k ts out)

newer-All :
    (k : Str) (ts : ℕ) (out : Dict ℕ)
    → IsTimed (k, ts)
    → All IsTimed out
    → All IsTimed (newer k ts out)
unfolding newer
newer-All k ts out h a = ground (arith, a, insert-All k ts out h a)

-- The later of two times, where there are two.
unfoldable pub later : Option ℕ → Option ℕ → Option ℕ
later none o = o
later (some ts) none = some ts
later (some ts) (some us) = if slt us ts then some ts else some us

lookup-newer :
    (j k : Str) (ts : ℕ) (out : Dict ℕ)
    → lookup j (newer k ts out)
      ≡ (if str_eq k j then later (some ts) (lookup j out) else lookup j out)
unfolding newer later
lookup-newer j k ts out = ground (arith, lookup-insert k j ts out, str_eq_iff k j)

lookup-merge_newer :
    (j : Str) (ram out : Dict ℕ)
    → Unique ram
    → lookup j (merge_newer ram out) ≡ later (lookup j ram) (lookup j out)
unfolding merge_newer later lookup
lookup-merge_newer j [] out u = refl
lookup-merge_newer j ((k, ts) ∷ ram) out u =
    lookup-merge_newer j ram (newer k ts out) u.1
    ∙ ground (arith, lookup-newer j k ts out, u.0, str_eq_iff k j)

merge_newer-Unique : (ram out : Dict ℕ) → Unique out → Unique (merge_newer ram out)
unfolding merge_newer
merge_newer-Unique [] out u = u
merge_newer-Unique ((k, ts) ∷ ram) out u =
    merge_newer-Unique ram (newer k ts out) (newer-Unique k ts out u)

merge_newer-All :
    (ram out : Dict ℕ) → All IsTimed ram → All IsTimed out → All IsTimed (merge_newer ram out)
unfolding merge_newer
merge_newer-All [] out a b = b
merge_newer-All ((k, ts) ∷ ram) out a b =
    merge_newer-All ram (newer k ts out) a.1 (newer-All k ts out a.0 b)

Unique-Distinct : (m : Dict ℕ) → Unique m → Distinct (keys m)
unfolding Distinct
Unique-Distinct [] u = tt
Unique-Distinct ((k, ts) ∷ m) u = (member-keys k m ∙ ap is_some u.0, Unique-Distinct m u.1)

module _ {A : Type 0} (f : A → ℕ) where
  keys-map_values : (m : Dict A) → keys (map_values f m) ≡ keys m
  keys-map_values [] = refl
  keys-map_values ((k, v) ∷ m) = ap (λ ks. k ∷ ks) (keys-map_values m)

  lookup-map_values : (k : Str) (m : Dict A) → lookup k m ≡ none → lookup k (map_values f m) ≡ none
  unfolding lookup
  lookup-map_values k [] e = refl
  lookup-map_values k ((j, v) ∷ m) e = ground (arith, e, lookup-map_values k m)

  map_values-Unique : (m : Dict A) → Unique m → Unique (map_values f m)
  map_values-Unique [] u = tt
  map_values-Unique ((k, v) ∷ m) u = (lookup-map_values k m u.0, map_values-Unique m u.1)

is_some-later : (a b : Option ℕ) → is_some (later a b) ≡ (is_some a || is_some b)
unfolding later
is_some-later a b = ground arith

module _ (p : Platform) where
  disk_times : (s : Service p) → keys (Stored.snapshot_access_times p s.disk) ≡ disk_keys p s.disk
  unfolding Stored.snapshot_access_times disk_keys
  disk_times s = keys-map_values (λ (m : DiskMeta). m.last_access) s.disk.index

  ram_times : (s : Service p) → keys (Memory.snapshot_access_times s.ram) ≡ ram_keys s.ram
  unfolding Memory.snapshot_access_times ram_keys
  ram_times s = keys-map_values (λ it. (s.ram.heap it).last_access) s.ram.items

  ram_times-Unique : (s : Service p) → IsService p s → Unique (Memory.snapshot_access_times s.ram)
  unfolding Memory.snapshot_access_times
  ram_times-Unique s ok =
      map_values-Unique (λ it. (s.ram.heap it).last_access) s.ram.items ok.ram.index.unique

  disk_times-Unique :
      (s : Service p) → IsService p s → Unique (Stored.snapshot_access_times p s.disk)
  unfolding Stored.snapshot_access_times
  disk_times-Unique s ok =
      map_values-Unique (λ (m : DiskMeta). m.last_access) s.disk.index ok.disk.unique

  lookup-snapshot_access :
      (s : Service p)
      → IsService p s
      → (k : Str)
      → lookup k (snapshot_access p s)
        ≡ later
            (lookup k (Memory.snapshot_access_times s.ram))
            (lookup k (Stored.snapshot_access_times p s.disk))
  unfolding snapshot_access
  lookup-snapshot_access s ok k =
      lookup-merge_newer k (Memory.snapshot_access_times s.ram)
        (Stored.snapshot_access_times p s.disk) (ram_times-Unique s ok)

  member-snapshot_access :
      (s : Service p)
      → IsService p s
      → (k : Str)
      → member k (keys (snapshot_access p s))
        ≡ (member k (ram_keys s.ram) || member k (disk_keys p s.disk))
  member-snapshot_access s ok k =
      let ram = Memory.snapshot_access_times s.ram in
      let disk = Stored.snapshot_access_times p s.disk in
      rw
        (
          sym (ram_times s),
          sym (disk_times s),
          member-keys k (snapshot_access p s),
          member-keys k ram,
          member-keys k disk,
          lookup-snapshot_access s ok k,
        )
        (is_some-later (lookup k ram) (lookup k disk))

  snapshot_access-Unique : (s : Service p) → IsService p s → Unique (snapshot_access p s)
  unfolding snapshot_access
  snapshot_access-Unique s ok =
      merge_newer-Unique (Memory.snapshot_access_times s.ram)
        (Stored.snapshot_access_times p s.disk) (disk_times-Unique s ok)

  snapshot_access-All :
      (s : Service p)
      → All IsTimed (Memory.snapshot_access_times s.ram)
      → All IsTimed (Stored.snapshot_access_times p s.disk)
      → All IsTimed (snapshot_access p s)
  unfolding snapshot_access
  snapshot_access-All s a b =
      merge_newer-All (Memory.snapshot_access_times s.ram) (Stored.snapshot_access_times p s.disk) a
        b

  -- From caches in order whose access times are words, a warmup queues exactly the keys of memory and
  -- of the disk's index that its rule matches, each once, and none of them comes after one with an
  -- earlier access, nor, at one time, after a larger key; the access of a key is the later one of those
  -- that the two caches have for it.
  pub warm_keys-Ranked :
      (test : Option (Str → Bool)) (s : Service p)
      → IsService p s
      → All IsTimed (Memory.snapshot_access_times s.ram)
      → All IsTimed (Stored.snapshot_access_times p s.disk)
      → ((k : Str)
          → (member k (warm_keys p test s)
              ≡ (fits test k && (member k (ram_keys s.ram) || member k (disk_keys p s.disk))))
            × (lookup k (snapshot_access p s)
                ≡ later
                    (lookup k (Memory.snapshot_access_times s.ram))
                    (lookup k (Stored.snapshot_access_times p s.disk))))
        × Distinct (warm_keys p test s)
        × Ranked (snapshot_access p s) (warm_keys p test s)
  unfolding warm_keys
  warm_keys-Ranked test s ok a b =
      let (members, distinct, ranked) =
        keys_by_last_access_desc-Ranked test (snapshot_access p s) (snapshot_access-All s a b)
          (Unique-Distinct (snapshot_access p s) (snapshot_access-Unique s ok)) in
      (
        λ k. (
          members k ∙ ap (λ m. fits test k && m) (member-snapshot_access s ok k),
          lookup-snapshot_access s ok k,
        ),
        distinct,
        ranked,
      )

-- ===== src/Stats/Service.antt =====
-- internal/wait0/stats/service.go, `CachedPathsCount`, over the index of the two caches that
-- `statsCacheIndex` of internal/wait0/service_core.go is.
use wait.Base.{
  member-keys, ◌≡◌, refl, ap, ℕ, ◌+◌, ◌-◌, List, [], ◌∷◌, Str, Dict, keys, Unique, Distinct, member,
  unique_from-append, count_in, count_in_comm, count_in_nil, Fresh, ◌∙◌, length, arith, is_some,
  if◌then◌else◌,
}
use wait.Cache.Ram.{ram_keys}
use wait.Cache.Disk.{Platform, Disk, disk_keys, key_count}
use wait.Cache.Disk as Stored
use wait.Proxy.{Service}
use wait.Proxy.Store.{IsService}
use wait.Invalidation.Cached.{cached_keys}

module _ (p : Platform) where
  -- How many of the keys the disk has.
  unfoldable pub intersect : Disk p → List Str → ℕ
  intersect d [] = 0
  intersect d (k ∷ ks) = (if Stored.has_key p d k then 1 else 0) + intersect d ks

  unfoldable pub cached_paths_count : Service p → ℕ
  cached_paths_count s =
      (length (ram_keys s.ram) + key_count p s.disk) - intersect s.disk (ram_keys s.ram)

module _ {V : Type 0} where
  keys-Distinct : (m : Dict V) → Unique m → Distinct (keys m)
  unfolding Distinct
  keys-Distinct [] u = tt
  keys-Distinct ((k, v) ∷ m) u = (member-keys k m ∙ ap is_some u.0, keys-Distinct m u.1)

  length-keys : (m : Dict V) → length (keys m) ≡ length m
  length-keys [] = refl
  length-keys (e ∷ m) = omega (arith, length-keys m)

-- No string is seen before the first.
Fresh-nil : (xs : List Str) → Fresh [] xs
unfolding Fresh member
Fresh-nil [] = tt
Fresh-nil (x ∷ xs) = (refl, Fresh-nil xs)

module _ (p : Platform) where
  intersect-count_in : (d : Disk p) (ks : List Str) → intersect p d ks ≡ count_in ks (disk_keys p d)
  unfolding intersect count_in Stored.has_key disk_keys
  intersect-count_in d [] = refl
  intersect-count_in d (k ∷ ks) = ground (arith, intersect-count_in d ks, member-keys k d.index)

  -- From caches in order: the count that the statistics print, the keys of memory and those of the
  -- disk less those that are in both, is the number of keys that the invalidation lists, which are
  -- the keys of the two caches, each once.
  pub cached_paths_count-cached_keys :
      (s : Service p) → IsService p s → cached_paths_count p s ≡ length (cached_keys p s)
  unfolding cached_paths_count cached_keys ram_keys disk_keys key_count
  cached_paths_count-cached_keys s ok =
      let ram = keys-Distinct s.ram.items ok.ram.index.unique in
      let disk = keys-Distinct s.disk.index ok.disk.unique in
      omega (
        arith,
        intersect-count_in s.disk (keys s.ram.items),
        count_in_comm (keys s.ram.items) (keys s.disk.index) ram disk,
        unique_from-append [] (keys s.ram.items) (keys s.disk.index) ram
            (Fresh-nil (keys s.ram.items)) disk,
        count_in_nil (keys s.disk.index),
        length-keys s.disk.index,
      )

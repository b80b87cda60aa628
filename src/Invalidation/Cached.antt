-- ===== src/Invalidation/Cached.antt =====
-- internal/wait0/invalidation_runtime_adapter.go: what the jobs of the invalidation read of the two
-- caches.
use wait.Base.{
  Bool, ◌||◌, none, some, List, [], ◌∷◌, ◌++◌, Str, str, split, trimmed_unique, unique_from,
  is_some,
}
use wait.Cache.Entry.{Entry}
use wait.Cache.Ram.{ram_keys}
use wait.Cache.Disk.{Platform, disk_keys}
use wait.Cache.Ram as Memory
use wait.Cache.Disk as Stored
use wait.Proxy.Origin.{header_values}
use wait.Proxy.{Service}
use wait.Revalidation.Once.{peek_either}

-- The parts of all values, in order.
unfoldable pub split_all : List Str → List Str
split_all [] = []
split_all (raw ∷ vals) = split raw b',' ++ split_all vals

-- The tags of an entry: the parts without the spaces around them, each once, none blank.
unfoldable pub entry_tags : Entry → List Str
entry_tags ent = trimmed_unique [] (split_all (header_values ent.header (str "X-Wait0-Tag")))

module _ (p : Platform) where
  -- The keys of memory and then those of the disk, each once.
  unfoldable pub cached_keys : Service p → List Str
  cached_keys s = unique_from [] (ram_keys s.ram ++ disk_keys p s.disk)

  unfoldable pub key_tags : Str → Service p → List Str
  key_tags key s = elim (peek_either p key s) [ none ↦ [] | some ent ↦ entry_tags ent ]

  unfoldable pub has_key : Str → Service p → Bool
  has_key key s = is_some (Memory.peek s.ram key) || is_some (Stored.peek p s.disk key)

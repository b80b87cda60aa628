-- ===== src/Cache/Disk.antt =====
-- internal/wait0/cache/disk.go: the cache on disk, an index in memory beside a LevelDB database,
-- with one writer that takes the operations of a channel one by one.
pub mod Total
pub mod Content
pub mod Drain
pub mod Restart
pub mod Persists
mod Tests
use wait.Base.{
  ℕ, zero, suc, ◌+◌, ◌/◌, Bool, true, false, not, ◌&&◌, Option, none, some, List, [], ◌∷◌, ◌++◌,
  Str, str, Dict, lookup, insert, delete, keys, length, take, ◌==◌, ltb, leb, if◌then◌else◌, add64,
  sub64, mul64, slt, is_pos, two64, ◌%◌, is_some, str_eq, drop, has_prefix,
}
use wait.Cache.Entry.{Entry, EntryMeta, entry_logical_size, Bytes, DiskOp, Queue, put_async}
use wait.Cache.Ram.{map_values, second, tenth}

pub record DiskMeta : Type 0 where
  pub size : ℕ
  pub last_access : ℕ
  pub stats_size : ℕ
  pub inactive : Bool
  pub discovered_by : Str
  pub last_refresh : ℕ

-- What a map lookup gives where the key is missing.
abbrev pub zero_meta : DiskMeta
zero_meta = record {
  size = 0;
  last_access = 0;
  stats_size = 0;
  inactive = false;
  discovered_by = [];
  last_refresh = 0;
}

-- One write of a LevelDB batch.
pub data BatchOp (B : Type 0) : Type 0 where
  put_op : Str → B → BatchOp B
  delete_op : Str → BatchOp B

-- What the cache uses of LevelDB (github.com/syndtr/goleveldb), of gob, whose encoded values are
-- read for their length alone, and of the order in which
-- `evictSome` finds the items of the index, which is that of a map's iteration and an unstable sort.
-- The code ignores the errors of a write: `write` gives the database as the call leaves it.
pub record Platform : Type 1 where
  pub Db : Type 0
  pub Blob : Type 0
  pub blob_len : Blob → ℕ
  pub read : Db → Str → Option Blob
  pub write : Db → List (BatchOp Blob) → Db
  pub scan : Db → Str → List (Str × Blob)
  pub scan_failed : Db → Str → Bool
  pub encode_entry : Entry → Option Blob
  pub decode_entry : Blob → Option Entry
  pub encode_meta : DiskMeta → Blob
  pub decode_meta : Blob → Option DiskMeta
  pub by_access : Dict DiskMeta → Dict DiskMeta

abbrev pub entry_key : Str → Str
entry_key key = str "e:" ++ key

abbrev pub meta_key : Str → Str
meta_key key = str "m:" ++ key

-- `bytes.TrimPrefix(key, "m:")`
unfoldable pub trim_meta : Str → Str
trim_meta k = if has_prefix k (str "m:") then drop 2 k else k

unfoldable pub disk_meta : DiskMeta → EntryMeta
disk_meta m = record {
  size = if not (is_pos m.stats_size) then m.size else m.stats_size;
  inactive = m.inactive;
  discovered_by = m.discovered_by;
  last_refresh_unix_nano =
      if not (is_pos m.last_refresh) then mul64 m.last_access second else m.last_refresh;
  stored_at_unix = 0;
}

-- The send of a touch: `d.ops <- diskOp{putKey: key, putEnt: nil}`.
abbrev pub touch_op : Str → DiskOp
touch_op key = record { put_key = key; put_ent = none; del_key = [] }

abbrev pub delete_key_op : Str → DiskOp
delete_key_op key = record { put_key = []; put_ent = none; del_key = key }

-- `m[key]`, with the zero value where the key is missing.
abbrev pub meta_of : Dict DiskMeta → Str → DiskMeta
meta_of m key = elim (lookup key m) [ none ↦ zero_meta | some meta ↦ meta ]

-- The metadata that an entry is stored with.
unfoldable pub entry_meta : DiskMeta → Entry → ℕ → ℕ → DiskMeta
entry_meta old ent len now = record old {
  size = len % two64;
  last_access = now;
  stats_size = entry_logical_size ent;
  inactive = ent.inactive;
  discovered_by = ent.discovered_by;
  last_refresh =
      if not (is_pos ent.revalidated_at) && is_pos ent.stored_at
      then mul64 ent.stored_at second
      else ent.revalidated_at;
}

module _ (p : Platform) where
  open p use {
    Db, Blob, blob_len, read, write, scan, scan_failed, encode_entry, decode_entry, encode_meta,
    decode_meta, by_access,
  }

  pub record Disk : Type 0 where
    pub max_bytes : ℕ
    pub db : Db
    pub index : Dict DiskMeta
    pub total_size : ℕ
    pub ops : Queue

  -- The loop of `loadIndex` over the iterator: the index and the total so far.
  pub load_items : List (Str × Blob) → Dict DiskMeta → ℕ → Dict DiskMeta × ℕ
  load_items [] idx total = (idx, total)
  load_items ((k, v) ∷ it) idx total = elim (decode_meta v) [
    | none ↦ load_items it idx total
    | some meta ↦ load_items it (insert (trim_meta k) meta idx) (add64 total meta.size)
  ]

  -- `NewDisk` after the database is open; `none` is an error of the iterator.
  unfoldable pub new_disk : Db → ℕ → Option Disk
  unfolding load_items trim_meta
  new_disk db max_bytes =
      let (idx, total) = load_items (scan db (str "m:")) [] 0 in
      if scan_failed db (str "m:")
      then none
      else some
          (record { max_bytes = max_bytes; db = db; index = idx; total_size = total; ops = [] })

  unfoldable pub snapshot_access_times : Disk → Dict ℕ
  snapshot_access_times d = map_values (λ (m : DiskMeta). m.last_access) d.index

  unfoldable pub meta_snapshot : Disk → Dict EntryMeta
  unfolding disk_meta
  meta_snapshot d = map_values disk_meta d.index

  unfoldable pub disk_total_size : Disk → ℕ
  disk_total_size d = d.total_size

  unfoldable pub key_count : Disk → ℕ
  key_count d = length d.index

  unfoldable pub has_key : Disk → Str → Bool
  has_key d key = is_some (lookup key d.index)

  unfoldable pub disk_keys : Disk → List Str
  disk_keys d = keys d.index

  unfoldable pub peek : Disk → Str → Option Entry
  peek d key = elim (read d.db (entry_key key)) [ none ↦ none | some b ↦ decode_entry b ]

  -- The state after `Get` and its result.
  unfoldable pub get : Disk → Str → ℕ → Disk × Option Entry
  get d key now = elim (peek d key) [
    | none ↦ (d, none)
    | some ent ↦ if ent.inactive then (d, none) else elim (lookup key d.index) [
      | none ↦ (d, some ent)
      | some meta ↦ (
        record d {
          index = insert key (record meta { last_access = now }) d.index;
          ops = d.ops ++ touch_op key ∷ [];
        },
        some ent,
      )
    ]
  ]

  unfoldable pub put_later : Disk → Str → Entry → Disk
  unfolding put_async
  put_later d key ent = record d { ops = put_async key ent d.ops }

  unfoldable pub delete_later : Disk → Str → Disk
  delete_later d key = record d { ops = d.ops ++ delete_key_op key ∷ [] }

  unfoldable pub apply_delete : Disk → Str → Disk
  apply_delete d key =
      let d1 = record d {
        db = write d.db (delete_op (entry_key key) ∷ delete_op (meta_key key) ∷ []);
      } in
      elim (lookup key d.index) [
        | none ↦ d1
        | some meta ↦ record d1 {
          total_size = sub64 d.total_size meta.size;
          index = delete key d.index;
        }
      ]

  -- The loop over the victims.
  unfoldable pub delete_all : Disk → List Str → Disk
  delete_all d [] = d
  delete_all d (k ∷ ks) = delete_all (apply_delete d k) ks

  unfoldable pub evict_some : Disk → Disk
  evict_some d = delete_all d (take (tenth (length (by_access d.index))) (keys (by_access d.index)))

  -- The put of an encoded entry, before the test of the limit.
  unfoldable pub store_entry : Disk → Str → Entry → Blob → ℕ → Disk
  unfolding entry_meta
  store_entry d key ent b now =
      let old = meta_of d.index key in
      let total1 = if is_pos old.size then sub64 d.total_size old.size else d.total_size in
      let meta = entry_meta old ent (blob_len b) now in
      record d {
        index = insert key meta d.index;
        total_size = add64 total1 meta.size;
        db = write d.db (put_op (entry_key key) b ∷ put_op (meta_key key) (encode_meta meta) ∷ []);
      }

  unfoldable pub touch : Disk → Str → ℕ → Disk
  touch d key now =
      let meta = meta_of d.index key in
      let meta1 = record meta { last_access = now } in
      if meta.size == 0 then d else (record d {
        index = insert key meta1 d.index;
        db = write d.db (put_op (meta_key key) (encode_meta meta1) ∷ []);
      })

  unfoldable pub apply_put_or_touch : Disk → Str → Option Entry → ℕ → Disk
  apply_put_or_touch d key none now = touch d key now
  apply_put_or_touch d key (some ent) now = elim (encode_entry ent) [
    | none ↦ d
    | some b ↦
        let d1 = store_entry d key ent b now in
        if slt d1.max_bytes d1.total_size then evict_some d1 else d1
  ]

  -- One round of `writerLoop`.
  unfoldable pub apply_op : Disk → DiskOp → ℕ → Disk
  apply_op d op now =
      if not (str_eq op.del_key [])
      then apply_delete d op.del_key
      else if not (str_eq op.put_key [])
      then apply_put_or_touch d op.put_key op.put_ent now
      else d

  -- The writer takes the oldest operation of the channel.
  unfoldable pub writer_step : Disk → ℕ → Disk
  writer_step d now = elim d.ops [ [] ↦ d | op ∷ ops ↦ apply_op (record d { ops = ops }) op now ]

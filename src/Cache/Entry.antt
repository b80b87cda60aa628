-- ===== src/Cache/Entry.antt =====
-- internal/wait0/cache/types.go: a cached response, what is read of it, and the operations that
-- the disk's queue holds (internal/wait0/cache/disk.go).
use wait.Base.{
  ℕ, Bool, false, Option, none, some, List, [], ◌∷◌, ◌++◌, Str, Dict, byte_len, add64, length,
  two64, ◌%◌,
}

abbrev pub Bytes : Type 0
Bytes = List ℕ

-- http.Header: the values of each name.
abbrev pub Header : Type 0
Header = Dict (List Str)

pub record Entry : Type 0 where
  pub status : ℕ
  pub header : Header
  pub body : Bytes
  pub stored_at : ℕ
  pub hash32 : ℕ
  pub inactive : Bool
  pub discovered_by : Str
  pub revalidated_at : ℕ
  pub revalidated_by : Str

-- The literal `Entry{}`.
abbrev pub zero_entry : Entry
zero_entry = record {
  status = 0;
  header = [];
  body = [];
  stored_at = 0;
  hash32 = 0;
  inactive = false;
  discovered_by = [];
  revalidated_at = 0;
  revalidated_by = [];
}

pub record EntryMeta : Type 0 where
  pub size : ℕ
  pub inactive : Bool
  pub discovered_by : Str
  pub last_refresh_unix_nano : ℕ
  pub stored_at_unix : ℕ

values_size : ℕ → List Str → ℕ
values_size total [] = total
values_size total (v ∷ vals) = values_size (add64 total (byte_len v)) vals

header_size : ℕ → Header → ℕ
header_size total [] = total
header_size total ((k, vals) ∷ h) = header_size (values_size (add64 total (byte_len k)) vals) h

unfoldable pub entry_logical_size : Entry → ℕ
unfolding values_size header_size
entry_logical_size ent = header_size (length ent.body % two64) ent.header

pub record DiskOp : Type 0 where
  pub put_key : Str
  pub put_ent : Option Entry
  pub del_key : Str

-- `d.ops <- op`: the sends on the channel, first the oldest; a send that waits for room stands in
-- the same order.
abbrev pub Queue : Type 0
Queue = List DiskOp

unfoldable pub put_async : Str → Entry → Queue → Queue
put_async key ent q = q ++ record { put_key = key; put_ent = some ent; del_key = [] } ∷ []

-- The queue of the disk that a victim goes to; `none` where there is no disk.
abbrev pub Sink : Type 0
Sink = Option Queue

unfoldable pub offer : Sink → Str → Entry → Sink
offer none key ent = none
offer (some q) key ent = some (put_async key ent q)

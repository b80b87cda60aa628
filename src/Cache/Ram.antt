-- ===== src/Cache/Ram.antt =====
-- internal/wait0/cache/ram.go: the cache in memory, a map of pointers to the items of a doubly
-- linked list, most recently used first. A pointer is an address into `heap`; `none` is nil.
pub mod Links
pub mod Chain
pub mod Slots
pub mod Valid
pub mod Steps
pub mod Add
pub mod Reads
pub mod Refines
pub mod Evict
pub mod Room
pub mod Put
pub mod Store
pub mod Limit
mod Tests
use wait.Base.{
  ℕ, zero, suc, ◌+◌, ◌/◌, Bool, true, false, not, ◌&&◌, Option, none, some, List, [], ◌∷◌, Str,
  Dict, lookup, insert, delete, keys, length, ◌==◌, ltb, if◌then◌else◌, add64, sub64, mul64, slt,
  is_pos, two64, ◌%◌, is_some,
}
use wait.Cache.Entry.{Entry, zero_entry, EntryMeta, entry_logical_size, Sink, offer, Bytes}

pub record RamItem : Type 0 where
  pub key : Str
  pub ent : Entry
  pub size : ℕ
  pub stats_size : ℕ
  pub last_access : ℕ
  pub prev : Option ℕ
  pub next : Option ℕ

abbrev pub Heap : Type 0
Heap = ℕ → RamItem

-- The address `fresh` is the next that is allocated.
pub record Ram : Type 0 where
  pub max_bytes : ℕ
  pub items : Dict ℕ
  pub heap : Heap
  pub fresh : ℕ
  pub head : Option ℕ
  pub tail : Option ℕ
  pub total : ℕ

abbrev pub blank_item : RamItem
blank_item = record {
  key = [];
  ent = zero_entry;
  size = 0;
  stats_size = 0;
  last_access = 0;
  prev = none;
  next = none;
}

unfoldable pub new_ram : ℕ → Ram
new_ram max_bytes = record {
  max_bytes = max_bytes;
  items = [];
  heap = λ a. blank_item;
  fresh = 0;
  head = none;
  tail = none;
  total = 0;
}

abbrev pub write : Heap → ℕ → RamItem → Heap
write h a it b = if b == a then it else h b

abbrev pub set_prev : Heap → ℕ → Option ℕ → Heap
set_prev h a p = write h a (record (h a) { prev = p })

abbrev pub set_next : Heap → ℕ → Option ℕ → Heap
set_next h a n = write h a (record (h a) { next = n })

-- `p.prev = q` and `p.next = q` where p may be nil: the tests of the list operations.
abbrev pub set_prev? : Heap → Option ℕ → Option ℕ → Heap
set_prev? h none q = h
set_prev? h (some a) q = set_prev h a q

abbrev pub set_next? : Heap → Option ℕ → Option ℕ → Heap
set_next? h none q = h
set_next? h (some a) q = set_next h a q

-- `if p != nil { … } else { c.head = q }`
abbrev pub or_else : Option ℕ → Option ℕ → Option ℕ → Option ℕ
or_else none kept q = q
or_else (some a) kept q = kept

unfoldable pub add_to_front : Ram → ℕ → Ram
add_to_front c it =
    let h1 = set_prev c.heap it none in
    let h2 = set_next h1 it c.head in
    let h3 = set_prev? h2 c.head (some it) in
    record c { heap = h3; head = some it; tail = or_else c.tail c.tail (some it) }

unfoldable pub remove : Ram → ℕ → Ram
remove c it =
    let h1 = set_next? c.heap (c.heap it).prev (c.heap it).next in
    let head = or_else (c.heap it).prev c.head (c.heap it).next in
    let h2 = set_prev? h1 (h1 it).next (h1 it).prev in
    let tail = or_else (h1 it).next c.tail (h1 it).prev in
    record c {
      heap = write h2 it (record (h2 it) { prev = none; next = none });
      head = head;
      tail = tail;
    }

-- `c.head == it`
abbrev pub points_to : Option ℕ → ℕ → Bool
points_to none it = false
points_to (some a) it = a == it

unfoldable pub move_to_front : Ram → ℕ → Ram
move_to_front c it = if points_to c.head it then c else add_to_front (remove c it) it

unfoldable pub total_size : Ram → ℕ
total_size c = c.total

unfoldable pub ram_keys : Ram → List Str
ram_keys c = keys c.items

unfoldable pub peek : Ram → Str → Option Entry
peek c key = elim (lookup key c.items) [ none ↦ none | some it ↦ some (c.heap it).ent ]

-- The state after `Get` and its result.
unfoldable pub get : Ram → Str → ℕ → Ram × Option Entry
get c key now = elim (lookup key c.items) [
  | none ↦ (c, none)
  | some it ↦
      if (c.heap it).ent.inactive
      then (c, none)
      else (let c1 = record c {
        heap = write c.heap it (record (c.heap it) { last_access = now });
      } in
          let c2 = move_to_front c1 it in (c2, some (c2.heap it).ent))
]

-- `c.remove(it); delete(c.items, key); c.total -= it.size`
unfoldable pub drop_item : Ram → ℕ → Str → Ram
drop_item c it key =
    let c1 = remove c it in
    record c1 { items = delete key c1.items; total = sub64 c1.total (c1.heap it).size }

unfoldable pub delete_key : Ram → Str → Ram
delete_key c key = elim (lookup key c.items) [ none ↦ c | some it ↦ drop_item c it key ]

-- The state of an eviction: the cache, the disk's queue, and the lines that the logger was given.
pub record Eviction : Type 0 where
  pub ram : Ram
  pub sink : Sink
  pub lines : ℕ

-- The loop `for range n` of `evictToDiskLocked`.
unfoldable pub evict_rounds : ℕ → Eviction → Eviction
evict_rounds zero e = e
evict_rounds (suc n) e = elim e.ram.tail [
  | none ↦ e
  | some it ↦ evict_rounds n (record e {
    ram = drop_item e.ram it (e.ram.heap it).key;
    sink = offer e.sink (e.ram.heap it).key (e.ram.heap it).ent;
  })
]

-- `max(count/10, 1)`
abbrev pub tenth : ℕ → ℕ
tenth count = if ltb (count / 10) 1 then 1 else count / 10

unfoldable pub evict_to_disk : Eviction → Eviction
evict_to_disk e =
    let count = length e.ram.items in if count == 0 then e else evict_rounds (tenth count) e

-- `c.maxBytes > 0 && c.total+sz > c.maxBytes`
abbrev pub is_over : Ram → ℕ → Bool
is_over c sz = is_pos c.max_bytes && slt c.max_bytes (add64 c.total sz)

-- The loop that makes room for `sz` bytes, on fuel; `none` means that the fuel ran out.
unfoldable pub make_room : ℕ → Bool → ℕ → Eviction → Option Eviction
make_room zero log sz e = none
make_room (suc fuel) log sz e =
    let e1 = evict_to_disk e in
    let again =
      make_room fuel log sz (record e1 { lines = if log then e1.lines + 1 else e1.lines }) in
    if not (is_over e.ram sz)
    then some e
    else if not (is_some e1.ram.tail)
    then some e1
    else if not (slt e1.ram.max_bytes (add64 e1.ram.total sz))
    then some e1
    else again

-- The branch of `Put` for a key that is there.
unfoldable pub overwrite : Ram → ℕ → Entry → ℕ → ℕ → ℕ → Ram
overwrite c it ent sz stats_size now =
    let total1 = sub64 c.total (c.heap it).size in
    let heap1 =
      write c.heap it
        (record (c.heap it) { ent = ent; size = sz; stats_size = stats_size; last_access = now }) in
    move_to_front (record c { heap = heap1; total = add64 total1 sz }) it

-- The end of `Put`: the new item.
unfoldable pub add_item : Ram → Str → Entry → ℕ → ℕ → ℕ → Ram
add_item c key ent sz stats_size now =
    let it = c.fresh in
    let item : RamItem = record {
      key = key;
      ent = ent;
      size = sz;
      stats_size = stats_size;
      last_access = now;
      prev = none;
      next = none;
    } in
    let c1 = record c {
      heap = write c.heap it item;
      fresh = c.fresh + 1;
      items = insert key it c.items;
    } in
    let c2 = add_to_front c1 it in record c2 { total = add64 c2.total sz }

-- `Put`, with the fuel of its loop, the length of the encoded entry (`none` where the encoder fails),
-- the time, whether there is a logger, and the disk's queue.
unfoldable pub put : ℕ → Option ℕ → ℕ → Bool → Str → Entry → Ram → Sink → Option Eviction
put fuel none now log key ent c sink = some (record { ram = c; sink = sink; lines = 0 })
put fuel (some b) now log key ent c sink =
    let sz = b % two64 in
    let stats_size = entry_logical_size ent in
    if is_pos c.max_bytes && slt c.max_bytes sz
    then some (record { ram = c; sink = offer sink key ent; lines = 0 })
    else (elim (lookup key c.items) [
      | some it ↦
          some (record { ram = overwrite c it ent sz stats_size now; sink = sink; lines = 0 })
      | none ↦ elim (make_room fuel log sz (record { ram = c; sink = sink; lines = 0 })) [
        | none ↦ none
        | some e ↦ some (record e { ram = add_item e.ram key ent sz stats_size now })
      ]
    ])

-- The map with the same keys and the values that `f` gives.
abbrev pub map_values {ℓ κ} : {A : Type ℓ} {B : Type κ} → (A → B) → Dict A → Dict B
map_values f [] = []
map_values f ((k, v) ∷ m) = (k, f v) ∷ map_values f m

unfoldable pub snapshot_access_times : Ram → Dict ℕ
snapshot_access_times c = map_values (λ it. (c.heap it).last_access) c.items

-- `int64(time.Second)`
abbrev pub second : ℕ
second = 1_000_000_000

unfoldable pub item_meta : RamItem → EntryMeta
item_meta it = record {
  size = it.stats_size;
  inactive = it.ent.inactive;
  discovered_by = it.ent.discovered_by;
  last_refresh_unix_nano =
      if not (is_pos it.ent.revalidated_at) && is_pos it.ent.stored_at
      then mul64 it.ent.stored_at second
      else it.ent.revalidated_at;
  stored_at_unix = it.ent.stored_at;
}

unfoldable pub meta_snapshot : Ram → Dict EntryMeta
unfolding item_meta
meta_snapshot c = map_values (λ it. item_meta (c.heap it)) c.items

-- The state after `SetLastAccessForTest` and its result.
unfoldable pub set_last_access_for_test : Ram → Str → ℕ → Ram × Bool
set_last_access_for_test c key ts = elim (lookup key c.items) [
  | none ↦ (c, false)
  | some it ↦ (record c { heap = write c.heap it (record (c.heap it) { last_access = ts }) }, true)
]

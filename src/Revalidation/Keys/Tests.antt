-- ===== src/Revalidation/Keys/Tests.antt =====
-- Runs of the keys that a warmup queues, internal/wait0/revalidation/controller.go.
use wait.Base.{
  ℕ, ◌≡◌, refl, ◌&&◌, ◌||◌, none, some, [], ◌∷◌, Str, str, str_eq, has_prefix, lookup, insert,
  delete, member, unique_from, Dict, Distinct, ◌-◌, ◌^◌, arith,
}
use wait.Cache.Entry.{Entry, entry_logical_size, put_async, offer}
use wait.Cache.Ram.{new_ram, add_item, add_to_front, put, ram_keys, drop_item, remove}
use wait.Cache.Disk.{put_later, disk_keys}
use wait.Cache.Ram as Memory
use wait.Cache.Disk as Stored
use wait.Proxy.{encoded, ram_put, store, Service, Times}
use wait.Proxy.Origin.{entry_of}
use wait.Proxy.Store.{IsService}
use wait.Proxy.Valid.{store-IsService}
use wait.Proxy.Samples.{empty, fresh, one_page, page, settings, times, fresh-IsService}
use wait.Revalidation.Keys.{
  str_lt, before, put_in, sort_items, put_string, sort_strings, fits, matching, newer, merge_newer,
  keys_by_last_access_desc, snapshot_access, all_keys_snapshot, warm_keys,
}
use wait.Revalidation.Keys.Ranked.{Ranked}
use wait.Revalidation.Keys.Warm.{later, warm_keys-Ranked}

program : Unit {0}
unfolding str_eq has_prefix lookup insert delete member unique_from Distinct entry_logical_size
    put_async offer new_ram add_item add_to_front put ram_keys drop_item remove put_later disk_keys
    Memory.make_room Memory.snapshot_access_times Stored.snapshot_access_times encoded ram_put store
    str_lt before put_in sort_items put_string sort_strings fits matching newer merge_newer
    keys_by_last_access_desc snapshot_access all_keys_snapshot warm_keys
program = tt

abbrev accesses : Dict ℕ
accesses = (str "/b", 7) ∷ (str "/a", 7) ∷ (str "/c", 9) ∷ (str "/old", 2 ^ 64 - 1) ∷ []

latest_first :
    keys_by_last_access_desc none accesses ≡ str "/c" ∷ str "/a" ∷ str "/b" ∷ str "/old" ∷ []
unfolding program
latest_first = refl

-- `/a` is stored, and four seconds later `/b`.
abbrev at_nine : Times
at_nine = record times { stored = 9 }

abbrev one : Entry
one = entry_of one_page page 5 6

abbrev with_a : Service empty
with_a = store empty settings times (str "/a") one fresh

abbrev with_b : Service empty
with_b = store empty settings at_nine (str "/b") one with_a

with_b-IsService : IsService empty with_b
with_b-IsService =
    store-IsService empty settings at_nine (str "/b") one with_a
      (store-IsService empty settings times (str "/a") one fresh fresh-IsService)

queued : warm_keys empty (some (λ k. has_prefix k (str "/"))) with_b ≡ str "/b" ∷ str "/a" ∷ []
unfolding program
queued = refl

all_keys : all_keys_snapshot empty with_b ≡ str "/a" ∷ str "/b" ∷ []
unfolding program
all_keys = refl

warm_keys-Ranked_example :
    ((k : Str)
      → (member k (warm_keys empty none with_b) ≡ (
          fits none k
          && (member k (ram_keys with_b.ram) || member k (disk_keys empty with_b.disk))))
        × (lookup k (snapshot_access empty with_b)
            ≡ later
                (lookup k (Memory.snapshot_access_times with_b.ram))
                (lookup k (Stored.snapshot_access_times empty with_b.disk))))
    × Distinct (warm_keys empty none with_b)
    × Ranked (snapshot_access empty with_b) (warm_keys empty none with_b)
unfolding program
warm_keys-Ranked_example =
    warm_keys-Ranked empty none with_b with_b-IsService (omega arith, (omega arith, tt)) tt

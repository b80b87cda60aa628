-- ===== src/Cache/Ram/Tests.antt =====
-- Runs of internal/wait0/cache/ram.go, and the theorems at concrete caches.
use wait.Base.{
  ℕ, ◌≡◌, refl, true, some, List, [], ◌∷◌, str, arith, lookup, insert, delete, str_eq, ◌≤◌,
}
use wait.Cache.Entry.{Entry, zero_entry, offer, put_async, entry_logical_size}
use wait.Cache.Lru.{without, lru_get, lru_peek}
use wait.Cache.Ram.{
  Ram, Eviction, new_ram, add_item, add_to_front, remove, move_to_front, drop_item, get, peek,
  delete_key, put, make_room, evict_to_disk, evict_rounds, overwrite, total_size, ram_keys,
}
use wait.Cache.Ram.Add.{add_item-IsRam}
use wait.Cache.Ram.Limit.{put_new-le-max_bytes}
use wait.Cache.Ram.Refines.{get-lru_get, delete_key-without, peek-lru_peek}
use wait.Cache.Ram.Slots.{contents}
use wait.Cache.Ram.Store.{Puts, put-Stores}
use wait.Cache.Ram.Valid.{IsRam, new_ram-IsRam}

program : Unit {0}
unfolding new_ram add_item add_to_front remove move_to_front drop_item get peek delete_key put
    make_room evict_to_disk evict_rounds overwrite total_size ram_keys lookup insert delete str_eq
    offer put_async entry_logical_size
program = tt

abbrev page : Entry
page = record zero_entry { status = 200; body = 1 ∷ 2 ∷ 3 ∷ [] }

-- A cache of 100 bytes with `/a` and then `/b`.
abbrev one : Ram
one = add_item (new_ram 100) (str "/a") page 40 3 7

abbrev two : Ram
two = add_item one (str "/b") page 50 3 8

two_keys : ram_keys two ≡ str "/a" ∷ str "/b" ∷ []
unfolding program
two_keys = refl

two_size : total_size two ≡ 90
unfolding program
two_size = refl

one-IsRam : IsRam one (0 ∷ [])
unfolding program
one-IsRam = add_item-IsRam (new_ram 100) [] (new_ram-IsRam 100) (str "/a") page 40 3 7 refl

two-IsRam : IsRam two (1 ∷ 0 ∷ [])
unfolding program
two-IsRam = add_item-IsRam one (0 ∷ []) one-IsRam (str "/b") page 50 3 8 refl

get-lru_get_example :
    (l : List ℕ) × IsRam (get two (str "/a") 9).0 l
    × (contents (get two (str "/a") 9).0.heap l
        ≡ (lru_get (contents two.heap (1 ∷ 0 ∷ [])) (str "/a") 9).0)
    × ((get two (str "/a") 9).1 ≡ (lru_get (contents two.heap (1 ∷ 0 ∷ [])) (str "/a") 9).1)
get-lru_get_example = get-lru_get two (1 ∷ 0 ∷ []) two-IsRam (str "/a") 9

peek-lru_peek_example : peek two (str "/b") ≡ lru_peek (contents two.heap (1 ∷ 0 ∷ [])) (str "/b")
peek-lru_peek_example = peek-lru_peek two (1 ∷ 0 ∷ []) two-IsRam (str "/b")

delete_key-without_example :
    (l : List ℕ) × IsRam (delete_key two (str "/b")) l
    × (contents (delete_key two (str "/b")).heap l
        ≡ without (str "/b") (contents two.heap (1 ∷ 0 ∷ [])))
delete_key-without_example = delete_key-without two (1 ∷ 0 ∷ []) two-IsRam (str "/b")

-- `/c` of 30 bytes: `/a` is evicted.
put-Stores_example : Puts 3 30 9 true (str "/c") page two (some []) (1 ∷ 0 ∷ [])
put-Stores_example =
    put-Stores 3 30 9 true page two (some []) (str "/c") (1 ∷ 0 ∷ []) two-IsRam (omega arith)

put_new-le-max_bytes_example :
    (e : Eviction) × (put 3 (some 30) 9 true (str "/c") page two (some []) ≡ some e)
    × (total_size e.ram ≤ 100)
unfolding program
put_new-le-max_bytes_example =
    put_new-le-max_bytes 3 30 9 true page two (some []) (str "/c") (1 ∷ 0 ∷ []) two-IsRam
      (omega arith) refl (omega arith) (omega arith) (omega arith) (omega arith)

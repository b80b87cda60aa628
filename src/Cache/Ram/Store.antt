-- ===== src/Cache/Ram/Store.antt =====
-- `Put` of internal/wait0/cache/ram.go implements `Stores` of Cache/Lru.antt.
use mathlib.Core.Path.{ap₂}
use wait.Base.{
  ℕ, ◌+◌, ◌%◌, ◌<◌, ◌≡◌, refl, ap, sym, ◌∙◌, Bool, true, false, none, some, List, [], ◌∷◌, ◌++◌,
  Str, ◌⊎◌, inl, inr, Bool-cases, length, lookup, two64,
}
use wait.Cache.Entry.{Entry, entry_logical_size, offer, Sink}
use wait.Cache.Lru.{Slot, bytes, Stores, too_big, replaced, added, goes_over}
use wait.Cache.Ram.{Heap, Ram, Eviction, overwrite, add_item, put, is_over}
use wait.Cache.Ram.Put.{
  overwrite-IsRam, overwrite-contents, put_big, put_known, put_new, still_missing, too_large, start,
}
use wait.Cache.Ram.Add.{add_item-IsRam, add_item-contents}
use wait.Cache.Ram.Evict.{contents-append}
use wait.Cache.Ram.Reads.{find_missing, found, found_slot, others}
use wait.Cache.Ram.Refines.{at_key}
use wait.Cache.Ram.Room.{make_room-Room}
use wait.Cache.Ram.Slots.{slot, contents, contents-SameSlots, sizes}
use wait.Cache.Ram.Valid.{IsRam}

pub bytes-contents : (h : Heap) (l : List ℕ) → bytes (contents h l) ≡ sizes h l
bytes-contents h [] = refl
bytes-contents h (a ∷ l) = ap (λ s. (h a).size + s) (bytes-contents h l)

-- The test on the count is the test on the entries.
over-goes_over :
    (r : Ram) (l : List ℕ) (sz : ℕ)
    → IsRam r l
    → is_over r sz ≡ goes_over r.max_bytes (bytes (contents r.heap l) % two64) sz
over-goes_over r l sz ok =
    ap (λ t. goes_over r.max_bytes t sz)
      (ok.summed ∙ ap (λ t. t % two64) (sym (bytes-contents r.heap l)))

room_fits :
    (c r : Ram) (kept : List ℕ) (sz : ℕ)
    → IsRam r kept
    → r.max_bytes ≡ c.max_bytes
    → contents r.heap kept ≡ contents c.heap kept
    → (is_over r sz ≡ false) ⊎ (kept ≡ [])
    → (goes_over c.max_bytes (bytes (contents c.heap kept) % two64) sz ≡ false)
      ⊎ (contents c.heap kept ≡ [])
room_fits c r kept sz ok limit same (inl fits) = inl (
    ap₂ (λ m t. goes_over m (bytes t % two64) sz) (sym limit) (sym same)
    ∙ (sym (over-goes_over r kept sz ok) ∙ fits))
room_fits c r kept sz ok limit same (inr empty) = inr (ap (contents c.heap) empty)

-- The slot that `Put` makes of its arguments.
abbrev pub new_slot : Str → Entry → ℕ → ℕ → Slot
new_slot key ent b now = record {
  key = key;
  ent = ent;
  size = b % two64;
  stats_size = entry_logical_size ent;
  last_access = now;
}

-- `Put` returns, in good order, and what it did is one of the ways of `Stores`.
pub record Puts (fuel : ℕ) (b : ℕ) (now : ℕ) (log : Bool) (key : Str) (ent : Entry) (c : Ram)
    (sink : Sink) (l : List ℕ) : Type 0 where
  pub after : Eviction
  pub list : List ℕ
  pub returns : put fuel (some b) now log key ent c sink ≡ some after
  pub valid : IsRam after.ram list
  pub stores :
      Stores c.max_bytes
        (new_slot key ent b now)
        (contents c.heap l)
        sink
        (contents after.ram.heap list)
        after.sink

module _ (fuel : ℕ) (b : ℕ) (now : ℕ) (log : Bool) (ent : Entry) (c : Ram) (sink : Sink) where
  Puts-big :
      (key : Str) (l : List ℕ)
      → IsRam c l
      → too_large fuel b now log key ent c sink ≡ true
      → Puts fuel b now log key ent c sink l
  Puts-big key l ok big = record {
    after = record (start fuel b now log key ent c sink) { sink = offer sink key ent };
    list = l;
    returns = put_big fuel b now log key ent c sink big;
    valid = ok;
    stores = too_big big refl refl;
  }

  Puts-known :
      (xs : List ℕ) (a : ℕ) (ys : List ℕ)
      → IsRam c (xs ++ a ∷ ys)
      → too_large fuel b now log (c.heap a).key ent c sink ≡ false
      → Puts fuel b now log (c.heap a).key ent c sink (xs ++ a ∷ ys)
  Puts-known xs a ys ok small =
      let st = entry_logical_size ent in
      record {
        after = record (start fuel b now log (c.heap a).key ent c sink) {
          ram = overwrite c a ent (b % two64) st now;
        };
        list = a ∷ xs ++ ys;
        returns = put_known fuel b now log (c.heap a).key ent c sink small (found c xs a ys ok);
        valid = overwrite-IsRam c xs a ys ok ent (b % two64) st now;
        stores =
            replaced small (slot (c.heap a)) (found_slot c xs a ys ok)
              (overwrite-contents c xs a ys ok ent (b % two64) st now
                ∙ ap (◌∷◌ (new_slot (c.heap a).key ent b now)) (sym (others c xs a ys ok)))
              refl;
      }

  Puts-new :
      (key : Str) (l : List ℕ)
      → IsRam c l
      → length l < fuel
      → too_large fuel b now log key ent c sink ≡ false
      → lookup key c.items ≡ none
      → Puts fuel b now log key ent c sink l
  Puts-new key l ok enough small new =
      let st = entry_logical_size ent in
      let e0 = start fuel b now log key ent c sink in
      let (e, run, room) = make_room-Room log (b % two64) fuel e0 l ok enough in
      let v = room.evicts in
      let missing = still_missing fuel b now log key ent c sink l e room ok new in
      let same : contents e.ram.heap room.kept ≡ contents c.heap room.kept =
        contents-SameSlots c.heap e.ram.heap room.kept v.same in
      record {
        after = record e { ram = add_item e.ram key ent (b % two64) st now };
        list = e.ram.fresh ∷ room.kept;
        returns = put_new fuel b now log key ent c sink small e new run;
        valid = add_item-IsRam e.ram room.kept v.valid key ent (b % two64) st now missing;
        stores =
            added small (find_missing c l ok key new) (contents c.heap room.kept)
              (contents c.heap room.gone)
              (ap (contents c.heap) v.splits ∙ contents-append c.heap room.kept room.gone)
              (add_item-contents e.ram room.kept v.valid key ent (b % two64) st now
                ∙ ap (◌∷◌ (new_slot key ent b now)) same)
              v.sunk (room_fits c e.ram room.kept (b % two64) v.valid v.limit same room.fits)
              (λ h. ap (contents c.heap) (room.needed (over-goes_over c l (b % two64) ok ∙ h)));
      }

  -- From a cache in order, with more fuel than it has items, and where the entry is encoded, `Put`
  -- returns; it keeps the pointers, the map and the byte count in
  -- order, and the list and the queue of the disk change in one of the ways of `Stores`.
  pub put-Stores :
      (key : Str) (l : List ℕ) → IsRam c l → length l < fuel → Puts fuel b now log key ent c sink l
  put-Stores key l ok enough = elim (Bool-cases (too_large fuel b now log key ent c sink)) [
    | inl big ↦ Puts-big key l ok big
    | inr small ↦
        at_key c (λ l k. length l < fuel → Puts fuel b now log k ent c sink l) l key ok
          (λ new enough. Puts-new key l ok enough small new)
          (λ xs a ys o _. Puts-known xs a ys o small) enough
  ]

-- ===== src/Cache/Ram/Limit.antt =====
-- The byte count against the limit, after `Put` of internal/wait0/cache/ram.go.
use wait.Base.{
  ℕ, ◌+◌, ◌%◌, ◌^◌, ◌≤◌, ◌<◌, ◌≡◌, ap, ◌∙◌, Bool, false, ◌&&◌, none, some, List, [], ◌∷◌, ◌++◌, Str,
  arith, ◌⊎◌, inl, inr, length, slt, is_pos, lookup, two64,
}
use wait.Cache.Entry.{Entry, Sink}
use wait.Cache.Lru.{Slot, Lru, find, bytes, Stores, too_big, replaced, added, goes_over}
use wait.Cache.Ram.{Ram, Eviction, put, total_size}
use wait.Cache.Ram.Reads.{find_missing}
use wait.Cache.Ram.Slots.{contents, sizes}
use wait.Cache.Ram.Store.{new_slot, put-Stores, bytes-contents}
use wait.Cache.Ram.Valid.{IsRam}

-- A total and a size below 2 ^ 62 do not wrap: the test is the plain one.
goes_over-false :
    (limit total sz : ℕ)
    → 0 < limit
    → limit < 2 ^ 62
    → total ≤ limit
    → sz ≤ limit
    → goes_over limit total sz ≡ false
    → total + sz ≤ limit
goes_over-false limit total sz p q r s h = ground arith

small_size :
    (limit sz : ℕ)
    → 0 < limit
    → limit < 2 ^ 62
    → sz < two64
    → (is_pos limit && slt limit sz) ≡ false
    → (sz ≤ limit) ⊎ (2 ^ 63 ≤ sz)
small_size limit sz p q r h = ground arith

bytes-append : (l m : Lru) → bytes (l ++ m) ≡ bytes l + bytes m
bytes-append [] m = omega arith
bytes-append (s ∷ l) m = omega (arith, bytes-append l m)

Stores-le-limit :
    (limit : ℕ) (new : Slot) (old : Lru) (s : Sink) (l : Lru) (s' : Sink)
    → Stores limit new old s l s'
    → find new.key old ≡ none
    → 0 < limit
    → limit < 2 ^ 62
    → bytes old ≤ limit
    → new.size < 2 ^ 63
    → bytes l ≤ limit
Stores-le-limit limit new old s l s' (too_big big same _) none_there pos small fits size =
    rw same fits
Stores-le-limit limit new old s l s' (replaced _ t there _ _) none_there pos small fits size = cc
Stores-le-limit limit new old s l s' (added small_new _ kept gone split l_is _ (inr empty) _)
      none_there pos small fits size =
    rw (l_is, empty) (omega (arith, small_size limit new.size pos small (omega arith) small_new))
Stores-le-limit limit new old s l s' (added small_new _ kept gone split l_is _ (inl room) _)
      none_there pos small fits size =
    let whole = ap (λ (x : Lru). bytes x) split ∙ bytes-append kept gone in
    let sz_le : new.size ≤ limit =
      omega (arith, small_size limit new.size pos small (omega arith) small_new) in
    let exact : bytes kept % two64 ≡ bytes kept = omega arith in
    let room' = rw exact at room in
    rw l_is (
      omega
        (arith, goes_over-false limit (bytes kept) new.size pos small (omega arith) sz_le room'))

module _ (fuel : ℕ) (b : ℕ) (now : ℕ) (log : Bool) (ent : Entry) (c : Ram) (sink : Sink)
    (key : Str) where
  -- A new key never brings the cache over its limit: from a cache in order and within the limit,
  -- with more fuel than it has items, `Put` returns one whose byte count is within it, for a limit
  -- above zero and below 2 ^ 62 and an encoded entry shorter than 2 ^ 63 bytes.
  pub put_new-le-max_bytes :
      (l : List ℕ)
      → IsRam c l
      → length l < fuel
      → lookup key c.items ≡ none
      → 0 < c.max_bytes
      → c.max_bytes < 2 ^ 62
      → sizes c.heap l ≤ c.max_bytes
      → b < 2 ^ 63
      → (e : Eviction) × (put fuel (some b) now log key ent c sink ≡ some e)
        × (total_size e.ram ≤ c.max_bytes)
  unfolding total_size
  put_new-le-max_bytes l ok enough new pos small fits len =
      let p = put-Stores fuel b now log ent c sink key l ok enough in
      let le =
        Stores-le-limit c.max_bytes (new_slot key ent b now) (contents c.heap l) sink
          (contents p.after.ram.heap p.list) p.after.sink p.stores (find_missing c l ok key new) pos
          small (rw bytes-contents fits) (omega arith) in
      (
        p.after,
        p.returns,
        omega (arith, le, p.valid.summed, bytes-contents p.after.ram.heap p.list),
      )

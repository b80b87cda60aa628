-- ===== src/Cache/Ram/Put.antt =====
-- The branches of `Put` of internal/wait0/cache/ram.go, and what its overwrite leaves.
use mathlib.Core.Option.{none-ne-some}
use wait.Base.{
  ℕ, ◌%◌, ◌≡◌, refl, ap, sym, ◌∙◌, Bool, true, false, ◌&&◌, none, some, List, ◌∷◌, ◌++◌, Str, arith,
  inl, inr, Option-cases, slt, add64, sub64, is_pos, lookup, two64,
}
use wait.Cache.Entry.{Entry, entry_logical_size, offer, Sink}
use wait.Cache.Lru.{Slot}
use wait.Cache.Ram.{
  Ram, RamItem, Eviction, write, overwrite, add_item, put, make_room, move_to_front,
}
use wait.Cache.Ram.Links.{is_in, is_in-append}
use wait.Cache.Ram.Room.{Room}
use wait.Cache.Ram.Slots.{contents, contents-write, contents-SameSlots, move_to_front-SameSlots}
use wait.Cache.Ram.Steps.{absent, sizes-middle, write-IsRam, move_to_front-IsRam}
use wait.Cache.Ram.Valid.{IsRam}

module _ (c : Ram) (xs : List ℕ) (a : ℕ) (ys : List ℕ) (ok : IsRam c (xs ++ a ∷ ys)) (ent : Entry)
    (sz stats_size now : ℕ) where
  -- The item with its new content, at its old place.
  rewritten : RamItem
  rewritten = record (c.heap a) { ent = ent; size = sz; stats_size = stats_size; last_access = now }

  refilled : Ram
  refilled = record c {
    heap = write c.heap a rewritten;
    total = add64 (sub64 c.total (c.heap a).size) sz;
  }

  refilled-IsRam : IsRam refilled (xs ++ a ∷ ys)
  unfolding refilled rewritten
  refilled-IsRam =
      write-IsRam c xs a ys ok rewritten (add64 (sub64 c.total (c.heap a).size) sz) refl refl refl
        (omega (arith, ok.summed, sizes-middle c.heap xs a ys))

  overwrite_lem : overwrite c a ent sz stats_size now ≡ move_to_front refilled a
  unfolding overwrite refilled rewritten
  overwrite_lem = refl

  pub overwrite-IsRam : IsRam (overwrite c a ent sz stats_size now) (a ∷ xs ++ ys)
  overwrite-IsRam = rw overwrite_lem (move_to_front-IsRam refilled xs a ys refilled-IsRam)

  pub overwrite-contents :
      contents (overwrite c a ent sz stats_size now).heap (a ∷ xs ++ ys)
      ≡ record {
        key = (c.heap a).key;
        ent = ent;
        size = sz;
        stats_size = stats_size;
        last_access = now;
      }
        ∷ contents c.heap (xs ++ ys)
  overwrite-contents =
      ap (λ r. contents r.heap (a ∷ xs ++ ys)) overwrite_lem
      ∙ (contents-SameSlots refilled.heap (move_to_front refilled a).heap (a ∷ xs ++ ys)
            (move_to_front-SameSlots refilled a)
          ∙ front)
    where
      front :
          contents refilled.heap (a ∷ xs ++ ys)
          ≡ record {
            key = (c.heap a).key;
            ent = ent;
            size = sz;
            stats_size = stats_size;
            last_access = now;
          }
            ∷ contents c.heap (xs ++ ys)
      front =
          unfold refilled rewritten in
          ground (arith, contents-write c.heap a rewritten (xs ++ ys) (absent c xs a ys ok))

module _ (fuel : ℕ) (b : ℕ) (now : ℕ) (log : Bool) (key : Str) (ent : Entry) (c : Ram)
    (sink : Sink) where
  -- The size test of `Put`.
  abbrev pub too_large : Bool
  too_large = is_pos c.max_bytes && slt c.max_bytes (b % two64)

  abbrev pub start : Eviction
  start = record { ram = c; sink = sink; lines = 0 }

  pub put_big :
      too_large ≡ true
      → put fuel (some b) now log key ent c sink ≡ some (record start { sink = offer sink key ent })
  unfolding put
  put_big h = simp (h, put)

  module _ (small : too_large ≡ false) where
    pub put_known :
        {it : ℕ}
        → lookup key c.items ≡ some it
        → put fuel (some b) now log key ent c sink
          ≡ some
              (record start { ram = overwrite c it ent (b % two64) (entry_logical_size ent) now })
    unfolding put
    put_known h = simp (small, h, put)

    pub put_new :
        (e : Eviction)
        → lookup key c.items ≡ none
        → make_room fuel log (b % two64) start ≡ some e
        → put fuel (some b) now log key ent c sink
          ≡ some
              (record e { ram = add_item e.ram key ent (b % two64) (entry_logical_size ent) now })
    unfolding put
    put_new e h k = simp (small, h, k, put)

  -- A key that the cache lacks before an eviction is lacking after it.
  pub still_missing :
      (l : List ℕ) (e : Eviction) (r : Room (b % two64) start e l)
      → IsRam c l
      → lookup key c.items ≡ none
      → lookup key e.ram.items ≡ none
  still_missing l e r ok h = elim (Option-cases (lookup key e.ram.items)) [
    | inl gone ↦ gone
    | inr (a, here) ↦
        let (listed, name) = r.evicts.valid.index.covered key a here in
        let was : is_in a l ≡ true = rw (r.evicts.splits, is_in-append, listed) in
        let old = ok.index.indexed a was in
        let same = ap (λ (s : Slot). s.key) (r.evicts.same a) in
        absurd (none-ne-some a (sym h ∙ (ap (λ k. lookup k c.items) (sym name ∙ same) ∙ old)))
  ]

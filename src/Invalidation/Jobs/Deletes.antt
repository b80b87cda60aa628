-- ===== src/Invalidation/Jobs/Deletes.antt =====
-- The deletions of `processJob` of internal/wait0/invalidation/controller.go.
use mathlib.Core.List.{append-nil, append_assoc}
use wait.Base.{
  sym, ◌≡◌, refl, ℕ, ◌+◌, false, ◌||◌, ◌++◌, none, List, [], ◌∷◌, Str, Distinct, member, map,
  str_eq, str_eq_iff, is_some, if◌then◌else◌, arith, ap, ◌∙◌,
}
use wait.Cache.Ram as Memory
use wait.Cache.Disk as Stored
use wait.Cache.Disk.{Platform, delete_later, delete_key_op}
use wait.Proxy.{Service, delete_everywhere}
use wait.Proxy.Store.{IsService}
use wait.Proxy.Valid.{delete_everywhere-IsService}
use wait.Proxy.Peeked.{delete_everywhere-peek}
use wait.Invalidation.Cached.{has_key}
use wait.Invalidation.Jobs.{invalidate_keys}

module _ (p : Platform) where
  pub invalidate_keys-IsService :
      (ks : List Str) (s : Service p) → IsService p s → IsService p (invalidate_keys p ks s).0
  unfolding invalidate_keys
  invalidate_keys-IsService [] s ok = ok
  invalidate_keys-IsService (k ∷ ks) s ok =
      invalidate_keys-IsService ks (delete_everywhere p k s) (delete_everywhere-IsService p k s ok)

  -- After the deletions memory has nothing under the keys, and under every other key what it had.
  pub invalidate_keys-peek :
      (k : Str) (ks : List Str) (s : Service p)
      → IsService p s
      → Memory.peek (invalidate_keys p ks s).0.ram k
        ≡ (if member k ks then none else Memory.peek s.ram k)
  unfolding invalidate_keys member
  invalidate_keys-peek k [] s ok = refl
  invalidate_keys-peek k (j ∷ ks) s ok =
      let rest =
        invalidate_keys-peek k ks (delete_everywhere p j s)
          (delete_everywhere-IsService p j s ok) in
      ground (arith, rest, delete_everywhere-peek p k j s ok)

  -- The disk's writer is given one deletion for each key, in order, behind what it had.
  pub invalidate_keys-ops :
      (ks : List Str) (s : Service p)
      → (invalidate_keys p ks s).0.disk.ops ≡ s.disk.ops ++ map delete_key_op ks
  unfolding invalidate_keys delete_everywhere delete_later
  invalidate_keys-ops [] s = sym (append-nil s.disk.ops)
  invalidate_keys-ops (k ∷ ks) s =
      invalidate_keys-ops ks (delete_everywhere p k s)
      ∙ append_assoc s.disk.ops (delete_key_op k ∷ []) (map delete_key_op ks)

  has_key_deleted :
      (k j : Str) (s : Service p)
      → IsService p s
      → str_eq j k ≡ false
      → has_key p k (delete_everywhere p j s) ≡ has_key p k s
  unfolding has_key delete_everywhere delete_later Stored.peek
  has_key_deleted k j s ok ne =
      ap (λ o. is_some o || is_some (Stored.peek p s.disk k))
        (delete_everywhere-peek p k j s ok ∙ ap (λ b. if b then none else Memory.peek s.ram k) ne)

  -- How many of the keys memory or, where it has none, the disk has an entry for.
  unfoldable pub present : List Str → Service p → ℕ
  present [] s = 0
  present (k ∷ ks) s =
      (if is_some (Memory.peek s.ram k)
        then 1
        else if is_some (Stored.peek p s.disk k)
        then 1
        else 0)
      + present ks s

  present_deleted :
      (j : Str) (ks : List Str) (s : Service p)
      → IsService p s
      → member j ks ≡ false
      → present ks (delete_everywhere p j s) ≡ present ks s
  unfolding present member has_key
  present_deleted j [] s ok e = refl
  present_deleted j (k ∷ ks) s ok e =
      let ne : str_eq j k ≡ false = ground (arith, e, str_eq_iff j k, str_eq_iff k j) in
      let tail : member j ks ≡ false = ground (arith, e) in
      let same = has_key_deleted k j s ok ne in ground (arith, present_deleted j ks s ok tail, same)

  -- From caches in order, the count of the invalidated keys is how many of the keys, which are
  -- distinct, had an entry in memory or on the disk before the first deletion.
  pub invalidate_keys-present :
      (ks : List Str) (s : Service p)
      → IsService p s
      → Distinct ks
      → (invalidate_keys p ks s).1 ≡ present ks s
  unfolding invalidate_keys present Distinct has_key
  invalidate_keys-present [] s ok d = refl
  invalidate_keys-present (k ∷ ks) s ok d =
      let rest =
        invalidate_keys-present ks (delete_everywhere p k s) (delete_everywhere-IsService p k s ok)
          d.1 in
      ground (arith, rest, present_deleted k ks s ok d.0)

-- ===== src/Cache/Disk/Drain.antt =====
-- The channel of internal/wait0/cache/disk.go: what a key reads when the writer has caught up.
use mathlib.Core.Path.{subst}
use wait.Base.{
  ℕ, ◌≡◌, ◌⊎◌, Bool, true, false, ◌||◌, refl, ap, sym, ◌∙◌, Option, none, some, List, [], ◌∷◌, Str,
  arith, inl, inr, Bool-cases, Option-cases, slt, lookup, length, ◌==◌,
}
use wait.Cache.Entry.{Entry, DiskOp, Queue}
use wait.Cache.Disk.{
  Platform, Disk, peek, store_entry, touch, apply_delete, delete_all, evict_some,
  apply_put_or_touch, apply_op, meta_of, writer_step,
}
use wait.Cache.Disk.Content.{
  PlatformLaws, effect, OrEvicted, OrEvicted-trans, apply_op-OrEvicted, is_over, apply_op-effect,
}

-- The operations of a channel, one after the other.
unfoldable pub effects : Queue → Str → Option Entry → Option Entry
effects [] k r = r
effects (op ∷ q) k r = effects q k (effect op k r)

-- An operation decides the entry, or leaves it as it was.
effect-none :
    (op : DiskOp) (k : Str) (r : Option Entry) → OrEvicted (effect op k none) (effect op k r)
unfolding effect
effect-none op k r = ground arith

effects-none :
    (q : Queue) (k : Str) (r : Option Entry) → OrEvicted (effects q k none) (effects q k r)
unfolding effects
effects-none [] k r = inr refl
effects-none (op ∷ q) k r = elim (effect-none op k r) [
  | inl e ↦ rw e (inl refl)
  | inr e ↦ rw e (effects-none q k (effect op k r))
]

effects-OrEvicted :
    (q : Queue) (k : Str) (x y : Option Entry)
    → OrEvicted x y
    → OrEvicted (effects q k x) (effects q k y)
effects-OrEvicted q k x y (inl e) = inl (ap (effects q k) e)
effects-OrEvicted q k x y (inr e) = rw e (effects-none q k y)

module _ (p : Platform) where
  -- The writer at the given times, one operation each.
  unfoldable pub writer_run : List ℕ → Disk p → Disk p
  writer_run [] d = d
  writer_run (now ∷ times) d = writer_run times (writer_step p d now)

  apply_delete-ops : (d : Disk p) (key : Str) → (apply_delete p d key).ops ≡ d.ops
  unfolding apply_delete
  apply_delete-ops d key = elim (Option-cases (lookup key d.index)) [
    | inl e ↦ rw (e, apply_delete)
    | inr (m, e) ↦ rw (e, apply_delete)
  ]

  delete_all-ops : (d : Disk p) (ks : List Str) → (delete_all p d ks).ops ≡ d.ops
  unfolding delete_all
  delete_all-ops d [] = refl
  delete_all-ops d (k ∷ ks) = delete_all-ops (apply_delete p d k) ks ∙ apply_delete-ops d k

  evict_some-ops : (d : Disk p) → (evict_some p d).ops ≡ d.ops
  unfolding evict_some
  evict_some-ops d = delete_all-ops d _

  touch-ops : (d : Disk p) (key : Str) (now : ℕ) → (touch p d key now).ops ≡ d.ops
  unfolding touch
  touch-ops d key now = elim (Bool-cases ((meta_of d.index key).size == 0)) [
    | inl z ↦ rw (z, touch)
    | inr nz ↦ rw (nz, touch)
  ]

  put-ops :
      (d : Disk p) (key : Str) (o : Option Entry) (now : ℕ)
      → (apply_put_or_touch p d key o now).ops ≡ d.ops
  unfolding apply_put_or_touch store_entry
  put-ops d key none now = touch-ops d key now
  put-ops d key (some ent) now = elim (Option-cases (p.encode_entry ent)) [
    | inl e ↦ rw (e, apply_put_or_touch)
    | inr (b, e) ↦
        let d1 = store_entry p d key ent b now in
        elim (Bool-cases (slt d1.max_bytes d1.total_size)) [
          | inl over ↦ simp (e, apply_put_or_touch, over) (evict_some-ops d1)
          | inr fits ↦ simp (e, apply_put_or_touch, fits)
        ]
  ]

  apply_op-ops : (d : Disk p) (op : DiskOp) (now : ℕ) → (apply_op p d op now).ops ≡ d.ops
  unfolding apply_op
  apply_op-ops d op now =
      ground (arith, apply_delete-ops d op.del_key, put-ops d op.put_key op.put_ent now)

  -- Whether some put of the run brings the count, before anything is evicted, over the limit.
  unfoldable pub goes_over : List ℕ → Disk p → Bool
  goes_over [] d = false
  goes_over (now ∷ times) d =
      (elim d.ops [ [] ↦ false | op ∷ ops ↦ is_over p (record d { ops = ops }) op now ])
      || goes_over times (writer_step p d now)

  module _ (laws : PlatformLaws p) (k : Str) where
    writer_run-OrEvicted :
        (times : List ℕ) (q : Queue) (d : Disk p)
        → d.ops ≡ q
        → length times ≡ length q
        → ((writer_run times d).ops ≡ [])
          × OrEvicted (peek p (writer_run times d) k) (effects q k (peek p d k))
    unfolding writer_run effects
    writer_run-OrEvicted [] [] d e n = (e, inl refl)
    writer_run-OrEvicted (t ∷ ts) [] d e n = absurd (omega arith)
    writer_run-OrEvicted [] (op ∷ q) d e n = absurd (omega arith)
    writer_run-OrEvicted (t ∷ ts) (op ∷ q) d e n =
        let d1 = record d { ops = q } in
        let d2 = apply_op p d1 op t in
        let step : writer_step p d t ≡ d2 = unfold writer_step in simp (e, writer_step) in
        let (done, now_is) = writer_run-OrEvicted ts q d2 (apply_op-ops d1 op t) (omega arith) in
        let one = apply_op-OrEvicted p laws k d1 op t in
        let same : peek p d1 k ≡ peek p d k = unfold peek in refl in
        let both =
          OrEvicted-trans p laws k now_is
            (effects-OrEvicted q k (peek p d2 k) (effect op k (peek p d1 k)) one) in
        subst
          (λ (x : Disk p).
            ((writer_run ts x).ops ≡ [])
            × OrEvicted (peek p (writer_run ts x) k) (effects q k (effect op k (peek p d k))))
          (sym step) (done, rw same at both)

    writer_run-within :
        (times : List ℕ) (q : Queue) (d : Disk p)
        → d.ops ≡ q
        → length times ≡ length q
        → goes_over times d ≡ false
        → peek p (writer_run times d) k ≡ effects q k (peek p d k)
    unfolding writer_run effects goes_over
    writer_run-within [] [] d e n within = refl
    writer_run-within (t ∷ ts) [] d e n within = absurd (omega arith)
    writer_run-within [] (op ∷ q) d e n within = absurd (omega arith)
    writer_run-within (t ∷ ts) (op ∷ q) d e n within =
        let d1 = record d { ops = q } in
        let d2 = apply_op p d1 op t in
        let step : writer_step p d t ≡ d2 = unfold writer_step in simp (e, writer_step) in
        let within' = simp (e, step, goes_over) at within in
        let one : peek p d2 k ≡ effect op k (peek p d1 k) =
          apply_op-effect p laws k d1 op t (ground (arith, within')) in
        let rest =
          writer_run-within ts q d2 (apply_op-ops d1 op t) (omega arith)
            (ground (arith, within')) in
        let same : peek p d1 k ≡ peek p d k = unfold peek in refl in
        ap (λ (x : Disk p). peek p (writer_run ts x) k) step
        ∙ (rest ∙ ap (effects q k) (one ∙ ap (effect op k) same))

    -- Where LevelDB applies a batch as a whole and gob encodes every entry and decodes what it
    -- encoded: when the writer has taken every operation of the channel, a key reads what the
    -- operations, in the order in which they were sent, make of the entry that was there; or it reads
    -- nothing, and some put on the way had brought the count, before the eviction, over the limit.
    pub writer_run-effects :
        (times : List ℕ) (q : Queue) (d : Disk p)
        → d.ops ≡ q
        → length times ≡ length q
        → ((writer_run times d).ops ≡ [])
          × ((peek p (writer_run times d) k ≡ effects q k (peek p d k))
              ⊎ ((peek p (writer_run times d) k ≡ none) × (goes_over times d ≡ true)))
    writer_run-effects times q d e n =
        let (done, or_evicted) = writer_run-OrEvicted times q d e n in
        (
          done,
          elim (Bool-cases (goes_over times d)) [
            | inr within ↦ inl (writer_run-within times q d e n within)
            | inl over ↦ elim or_evicted [ inl same ↦ inl same | inr gone ↦ inr (gone, over) ]
          ],
        )

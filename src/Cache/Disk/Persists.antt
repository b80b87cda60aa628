-- ===== src/Cache/Disk/Persists.antt =====
-- What the writer of internal/wait0/cache/disk.go keeps in the database of its index.
use mathlib.Core.Path.{subst}
use wait.Base.{
  ℕ, ◌≡◌, refl, sym, ap, ◌∙◌, Bool, true, false, Option, none, some, List, [], ◌∷◌, Str, lookup,
  lookup-insert, lookup-delete, if◌then◌else◌, str_eq, str_eq_iff, Bool-cases, Option-cases, inl,
  inr, arith, slt, ◌==◌,
}
use wait.Cache.Entry.{Entry, DiskOp, Queue}
use wait.Cache.Disk.{
  DiskMeta, BatchOp, put_op, delete_op, Platform, Disk, entry_key, meta_key, meta_of, new_disk,
  store_entry, touch, apply_delete, delete_all, evict_some, apply_put_or_touch, apply_op,
  writer_step, entry_meta,
}
use wait.Cache.Disk.Content.{PlatformLaws, batch_read, apply_delete-db}
use wait.Cache.Disk.Drain.{writer_run}
use wait.Cache.Disk.Total.{IsDisk, EncodesShort, writer_step-IsDisk}
use wait.Cache.Disk.Restart.{
  decode_of, IsPersisted, DecodesMeta, ScanLaws, IsRestored, meta-meta, new_disk-IsRestored,
}

entry-meta : (k j : Str) → str_eq (entry_key k) (meta_key j) ≡ false
unfolding str_eq
entry-meta k j = refl

module _ (p : Platform) (laws : PlatformLaws p) (decodes : DecodesMeta p) where
  read_meta :
      (d d' : Disk p) (ops : List (BatchOp p.Blob)) (k : Str)
      → d'.db ≡ p.write d.db ops
      → decode_of p (p.read d'.db (meta_key k))
        ≡ decode_of p (batch_read ops (meta_key k) (p.read d.db (meta_key k)))
  read_meta d d' ops k e =
      ap (λ db. decode_of p (p.read db (meta_key k))) e
      ∙ ap (decode_of p) (laws.reads d.db ops (meta_key k))

  decode_put :
      (b : Bool) (m : DiskMeta) (o : Option p.Blob)
      → decode_of p (if b then some (p.encode_meta m) else o)
        ≡ (if b then some m else decode_of p o)
  unfolding decode_of
  decode_put true m o = decodes m
  decode_put false m o = refl

  decode_delete :
      (b : Bool) (o : Option p.Blob)
      → decode_of p (if b then none else o) ≡ (if b then none else decode_of p o)
  unfolding decode_of
  decode_delete true o = refl
  decode_delete false o = refl

  store_entry-IsPersisted :
      (d : Disk p) (key : Str) (ent : Entry) (b : p.Blob) (now : ℕ)
      → IsPersisted p d
      → IsPersisted p (store_entry p d key ent b now)
  unfolding store_entry
  store_entry-IsPersisted d key ent b now ok k =
      let meta = entry_meta (meta_of d.index key) ent (p.blob_len b) now in
      read_meta d (store_entry p d key ent b now)
        (put_op (entry_key key) b ∷ put_op (meta_key key) (p.encode_meta meta) ∷ []) k refl
      ∙ simp (entry-meta, meta-meta)
          (decode_put (str_eq key k) meta (p.read d.db (meta_key k))
            ∙ (ap (λ x. if str_eq key k then some meta else x) (ok k)
                ∙ sym (lookup-insert key k meta d.index)))

  touch-IsPersisted :
      (d : Disk p) (key : Str) (now : ℕ) → IsPersisted p d → IsPersisted p (touch p d key now)
  unfolding touch
  touch-IsPersisted d key now ok = elim (Bool-cases ((meta_of d.index key).size == 0)) [
    | inl z ↦ simp (z, touch) ok
    | inr nz ↦
        let meta = record (meta_of d.index key) { last_access = now } in
        simp (nz, touch)
          (λ k.
            ap (decode_of p)
              (laws.reads d.db (put_op (meta_key key) (p.encode_meta meta) ∷ []) (meta_key k))
            ∙ simp (meta-meta) (
                decode_put (str_eq key k) meta (p.read d.db (meta_key k))
                ∙ (ap (λ x. if str_eq key k then some meta else x) (ok k)
                    ∙ sym (lookup-insert key k meta d.index))))
  ]

  lookup-apply_delete :
      (d : Disk p) (key k : Str)
      → lookup k (apply_delete p d key).index ≡ (if str_eq key k then none else lookup k d.index)
  unfolding apply_delete
  lookup-apply_delete d key k = elim (Option-cases (lookup key d.index)) [
    | inl e ↦
        simp (e, apply_delete)
          (ground (arith, e, str_eq_iff key k, λ (q : key ≡ k). ap (λ x. lookup x d.index) q))
    | inr (m, e) ↦ simp (e, apply_delete) (lookup-delete key k d.index)
  ]

  apply_delete-IsPersisted :
      (d : Disk p) (key : Str) → IsPersisted p d → IsPersisted p (apply_delete p d key)
  apply_delete-IsPersisted d key ok k =
      read_meta d (apply_delete p d key) (delete_op (entry_key key) ∷ delete_op (meta_key key) ∷ [])
        k (apply_delete-db p d key)
      ∙ simp (entry-meta, meta-meta)
          (decode_delete (str_eq key k) (p.read d.db (meta_key k))
            ∙ (ap (λ x. if str_eq key k then none else x) (ok k)
                ∙ sym (lookup-apply_delete d key k)))

  delete_all-IsPersisted :
      (d : Disk p) (ks : List Str) → IsPersisted p d → IsPersisted p (delete_all p d ks)
  unfolding delete_all
  delete_all-IsPersisted d [] ok = ok
  delete_all-IsPersisted d (k ∷ ks) ok =
      delete_all-IsPersisted (apply_delete p d k) ks (apply_delete-IsPersisted d k ok)

  evict_some-IsPersisted : (d : Disk p) → IsPersisted p d → IsPersisted p (evict_some p d)
  unfolding evict_some
  evict_some-IsPersisted d ok = delete_all-IsPersisted d _ ok

  put-IsPersisted :
      (d : Disk p) (key : Str) (o : Option Entry) (now : ℕ)
      → IsPersisted p d
      → IsPersisted p (apply_put_or_touch p d key o now)
  unfolding apply_put_or_touch
  put-IsPersisted d key none now ok = touch-IsPersisted d key now ok
  put-IsPersisted d key (some ent) now ok = elim (Option-cases (p.encode_entry ent)) [
    | inl e ↦ simp (e, apply_put_or_touch) ok
    | inr (b, e) ↦
        let d1 = store_entry p d key ent b now in
        let stored = store_entry-IsPersisted d key ent b now ok in
        elim (Bool-cases (slt d1.max_bytes d1.total_size)) [
          | inl over ↦ simp (e, apply_put_or_touch, over) (evict_some-IsPersisted d1 stored)
          | inr fits ↦ simp (e, apply_put_or_touch, fits) stored
        ]
  ]

  apply_op-IsPersisted :
      (d : Disk p) (op : DiskOp) (now : ℕ) → IsPersisted p d → IsPersisted p (apply_op p d op now)
  unfolding apply_op
  apply_op-IsPersisted d op now ok = elim (Bool-cases (str_eq op.del_key [])) [
    | inr del ↦ simp (del, apply_op) (apply_delete-IsPersisted d op.del_key ok)
    | inl no_del ↦ elim (Bool-cases (str_eq op.put_key [])) [
      | inr put ↦ simp (no_del, put, apply_op) (put-IsPersisted d op.put_key op.put_ent now ok)
      | inl no_put ↦ simp (no_del, no_put, apply_op) ok
    ]
  ]

  writer_step-IsPersisted :
      (d : Disk p) (now : ℕ) → IsPersisted p d → IsPersisted p (writer_step p d now)
  writer_step-IsPersisted d now ok = go d.ops refl
    where
      step :
          (q : Queue)
          → d.ops ≡ q
          → writer_step p d now
            ≡ (elim q [ [] ↦ d | op ∷ ops ↦ apply_op p (record d { ops = ops }) op now ])
      step q e =
          unfold writer_step in
          ap
            (λ (q : Queue). elim q as (λ x. Disk p) [
              | [] ↦ d
              | op ∷ ops ↦ apply_op p (record d { ops = ops }) op now
            ])
            e

      go : (q : Queue) → d.ops ≡ q → IsPersisted p (writer_step p d now)
      go [] e = subst (IsPersisted p) (sym (step [] e)) ok
      go (op ∷ q) e =
          subst (IsPersisted p) (sym (step (op ∷ q) e))
            (apply_op-IsPersisted (record d { ops = q }) op now ok)

  writer_run-IsPersisted :
      (times : List ℕ) (d : Disk p) → IsPersisted p d → IsPersisted p (writer_run p times d)
  unfolding writer_run
  writer_run-IsPersisted [] d ok = ok
  writer_run-IsPersisted (t ∷ times) d ok =
      writer_run-IsPersisted times (writer_step p d t) (writer_step-IsPersisted d t ok)

  module _ (short : EncodesShort p) where
    writer_run-IsDisk : (times : List ℕ) (d : Disk p) → IsDisk p d → IsDisk p (writer_run p times d)
    unfolding writer_run
    writer_run-IsDisk [] d ok = ok
    writer_run-IsDisk (t ∷ times) d ok =
        writer_run-IsDisk times (writer_step p d t) (writer_step-IsDisk p short d t ok)

    -- Where LevelDB applies a batch as a whole and lists the keys of a prefix, and gob decodes what
    -- it encoded, in less than 2 ^ 63 bytes: from a cache on disk in order, whose database has its
    -- index, and after any operations of the writer, a cache that is opened on the database has the
    -- same index, the same total and the same entries, and is in order again: the keys of its index are
    -- distinct, their sizes below 2 ^ 63, its total is their sum, and its database has the index.
    pub writer_run-new_disk :
        (times : List ℕ) (d : Disk p) (max_bytes : ℕ)
        → IsDisk p d
        → IsPersisted p d
        → ScanLaws p (writer_run p times d).db
        → (d' : Disk p) × (new_disk p (writer_run p times d).db max_bytes ≡ some d')
          × IsRestored p (writer_run p times d) d'
    writer_run-new_disk times d max_bytes ok kept scan =
        new_disk-IsRestored p (writer_run p times d) max_bytes (writer_run-IsDisk times d ok)
          (writer_run-IsPersisted times d kept) scan

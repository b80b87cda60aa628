-- ===== src/Cache/Disk/Total.antt =====
-- The index of internal/wait0/cache/disk.go and its byte count.
use wait.Base.{
  ℕ, ◌+◌, ◌%◌, ◌<◌, ◌≡◌, refl, Option, none, some, List, [], ◌∷◌, Str, Dict, arith, ◌==◌, inl, inr,
  Bool-cases, Option-cases, slt, add64, sub64, is_pos, lookup, insert, delete, two64, two63,
  if◌then◌else◌, str_eq, str_eq_iff, Unique, delete-Unique, delete_absent, lookup-insert,
  lookup-delete,
}
use wait.Cache.Entry.{Entry, DiskOp}
use wait.Cache.Disk.{
  DiskMeta, Platform, Disk, meta_of, store_entry, entry_meta, touch, apply_delete, delete_all,
  evict_some, apply_put_or_touch, apply_op, writer_step, get, peek,
}

abbrev pub sum : Dict DiskMeta → ℕ
sum [] = 0
sum ((k, m) ∷ idx) = m.size + sum idx

-- The count is the sum over the index, whose keys are distinct and whose sizes are int64 lengths.
pub record IsCounted (idx : Dict DiskMeta) (total : ℕ) : Type 0 where
  pub summed : total ≡ sum idx % two64
  pub unique : Unique idx
  pub lengths : (k : Str) (m : DiskMeta) → lookup k idx ≡ some m → m.size < two63

abbrev pub size_of : Dict DiskMeta → Str → ℕ
size_of idx k = elim (lookup k idx) [ none ↦ 0 | some m ↦ m.size ]

pub sum-insert :
    (k : Str) (v : DiskMeta) (idx : Dict DiskMeta)
    → sum (insert k v idx) + size_of idx k ≡ sum idx + v.size
unfolding insert lookup
sum-insert k v [] = omega arith
sum-insert k v ((j, m) ∷ idx) = ground (arith, sum-insert k v idx)

pub sum-delete :
    (k : Str) (idx : Dict DiskMeta) → Unique idx → sum (delete k idx) + size_of idx k ≡ sum idx
unfolding delete lookup
sum-delete k [] u = refl
sum-delete k ((j, m) ∷ idx) u =
    ground (arith, sum-delete k idx, delete_absent k idx, str_eq_iff j k)

pub insert-Unique :
    (k : Str) (v : DiskMeta) (idx : Dict DiskMeta) → Unique idx → Unique (insert k v idx)
unfolding insert lookup
insert-Unique k v [] u = (refl, tt)
insert-Unique k v ((j, m) ∷ idx) u =
    ground (arith, insert-Unique k v idx, lookup-insert k j v idx, str_eq_iff k j, str_eq_iff j k)

size_of-lt :
    {idx : Dict DiskMeta} {total : ℕ} → IsCounted idx total → (k : Str) → size_of idx k < two63
size_of-lt {idx} c k = elim (Option-cases (lookup k idx)) [
  | inl e ↦ rw (e, size_of) (omega arith)
  | inr (m, e) ↦ rw (e, size_of) (c.lengths k m e)
]

-- A write of an index entry, with the count moved by the difference.
pub insert-IsCounted :
    (idx : Dict DiskMeta) (total : ℕ) (k : Str) (v : DiskMeta)
    → IsCounted idx total
    → v.size < two63
    → IsCounted
        (insert k v idx)
        (add64 (if is_pos (size_of idx k) then sub64 total (size_of idx k) else total) v.size)
insert-IsCounted idx total k v c lt = record {
  summed = counted (size_of idx k) (size_of-lt c k) (sum-insert k v idx);
  unique = insert-Unique k v idx c.unique;
  lengths = λ j m e. ground (arith, lookup-insert k j v idx, c.lengths j m);
}
  where
    counted :
        (old : ℕ)
        → old < two63
        → sum (insert k v idx) + old ≡ sum idx + v.size
        → add64 (if is_pos old then sub64 total old else total) v.size
          ≡ sum (insert k v idx) % two64
    counted old small e = ground (arith, c.summed)

pub delete-IsCounted :
    (idx : Dict DiskMeta) (total : ℕ) (k : Str)
    → IsCounted idx total
    → IsCounted (delete k idx) (sub64 total (size_of idx k))
delete-IsCounted idx total k c = record {
  summed = counted (size_of idx k) (sum-delete k idx c.unique);
  unique = delete-Unique k idx c.unique;
  lengths = λ j m e. ground (arith, lookup-delete k j idx, c.lengths j m);
}
  where
    counted :
        (old : ℕ)
        → sum (delete k idx) + old ≡ sum idx
        → sub64 total old ≡ sum (delete k idx) % two64
    counted old e = omega (arith, c.summed)

meta_of-size_of : (idx : Dict DiskMeta) (k : Str) → (meta_of idx k).size ≡ size_of idx k
meta_of-size_of idx k = elim (Option-cases (lookup k idx)) [
  | inl e ↦ rw (e, size_of, meta_of)
  | inr (m, e) ↦ rw (e, size_of, meta_of)
]

module _ (p : Platform) where
  -- The encoder writes less than 2 ^ 63 bytes.
  abbrev pub EncodesShort : Type 0
  EncodesShort = (ent : Entry) (b : p.Blob) → p.encode_entry ent ≡ some b → p.blob_len b < two63

  abbrev pub IsDisk : Disk p → Type 0
  IsDisk d = IsCounted d.index d.total_size

  module _ (d : Disk p) (ok : IsDisk d) where
    store_entry-IsDisk :
        (key : Str) (ent : Entry) (b : p.Blob) (now : ℕ)
        → p.blob_len b < two63
        → IsDisk (store_entry p d key ent b now)
    unfolding store_entry entry_meta
    store_entry-IsDisk key ent b now short = rw meta_of-size_of (
        insert-IsCounted d.index d.total_size key
          (entry_meta (meta_of d.index key) ent (p.blob_len b) now) ok (omega arith))

    pub apply_delete-IsDisk : (key : Str) → IsDisk (apply_delete p d key)
    unfolding apply_delete
    apply_delete-IsDisk key = elim (Option-cases (lookup key d.index)) [
      | inl e ↦ rw (e, apply_delete) ok
      | inr (m, e) ↦
          let c = delete-IsCounted d.index d.total_size key ok in
          rw (e, apply_delete) (rw (e, size_of) at c)
    ]

    -- A new access time is no new size.
    stamp-IsCounted :
        (key : Str) (m : DiskMeta) (now : ℕ)
        → lookup key d.index ≡ some m
        → IsCounted (insert key (record m { last_access = now }) d.index) d.total_size
    stamp-IsCounted key m now e =
        let c =
          insert-IsCounted d.index d.total_size key (record m { last_access = now }) ok
            (ok.lengths key m e) in
        let sized : size_of d.index key ≡ m.size = rw (e, size_of) in
        record {
          summed =
              omega
                (arith, ok.summed, sum-insert key (record m { last_access = now }) d.index, sized);
          unique = c.unique;
          lengths = c.lengths;
        }

    touch-IsDisk : (key : Str) (now : ℕ) → IsDisk (touch p d key now)
    unfolding touch
    touch-IsDisk key now = elim (Option-cases (lookup key d.index)) [
      | inl e ↦ rw (e, touch, meta_of) ok
      | inr (m, e) ↦ elim (Bool-cases (m.size == 0)) [
        | inl z ↦ rw (e, touch, meta_of, z) ok
        | inr nz ↦ rw (e, touch, meta_of, nz) (stamp-IsCounted key m now e)
      ]
    ]

    pub get-IsDisk : (key : Str) (now : ℕ) → IsDisk (get p d key now).0
    unfolding get
    get-IsDisk key now = elim (Option-cases (peek p d key)) [
      | inl e ↦ rw (e, get) ok
      | inr (ent, e) ↦ elim (Bool-cases ent.inactive) [
        | inl off ↦ rw (e, get, off) ok
        | inr on ↦ elim (Option-cases (lookup key d.index)) [
          | inl f ↦ simp (e, get, on, f) ok
          | inr (m, f) ↦ simp (e, get, on, f) (stamp-IsCounted key m now f)
        ]
      ]
    ]

  delete_all-IsDisk : (d : Disk p) (ks : List Str) → IsDisk d → IsDisk (delete_all p d ks)
  unfolding delete_all
  delete_all-IsDisk d [] ok = ok
  delete_all-IsDisk d (k ∷ ks) ok =
      delete_all-IsDisk (apply_delete p d k) ks (apply_delete-IsDisk d ok k)

  evict_some-IsDisk : (d : Disk p) → IsDisk d → IsDisk (evict_some p d)
  unfolding evict_some
  evict_some-IsDisk d ok = delete_all-IsDisk d _ ok

  module _ (encodes : EncodesShort) where
    apply_put_or_touch-IsDisk :
        (d : Disk p) (key : Str) (o : Option Entry) (now : ℕ)
        → IsDisk d
        → IsDisk (apply_put_or_touch p d key o now)
    unfolding apply_put_or_touch
    apply_put_or_touch-IsDisk d key none now ok = touch-IsDisk d ok key now
    apply_put_or_touch-IsDisk d key (some ent) now ok = elim (Option-cases (p.encode_entry ent)) [
      | inl e ↦ rw (e, apply_put_or_touch) ok
      | inr (b, e) ↦
          let d1 = store_entry p d key ent b now in
          let ok1 = store_entry-IsDisk d ok key ent b now (encodes ent b e) in
          elim (Bool-cases (slt d1.max_bytes d1.total_size)) [
            | inl over ↦ simp (e, apply_put_or_touch, over) (evict_some-IsDisk d1 ok1)
            | inr fits ↦ simp (e, apply_put_or_touch, fits) ok1
          ]
    ]

    -- Where encoded entries are shorter than 2 ^ 63 bytes: whatever operation the writer takes from
    -- the channel, from an index with distinct keys, int64 lengths and a count that is the sum of the
    -- sizes in it (modulo 2 ^ 64), the index and the count are so again.
    pub apply_op-IsDisk :
        (d : Disk p) (op : DiskOp) (now : ℕ) → IsDisk d → IsDisk (apply_op p d op now)
    unfolding apply_op
    apply_op-IsDisk d op now ok = elim (Bool-cases (str_eq op.del_key [])) [
      | inr del ↦ rw del (apply_delete-IsDisk d ok op.del_key)
      | inl no_del ↦ elim (Bool-cases (str_eq op.put_key [])) [
        | inr put ↦ rw (no_del, put) (apply_put_or_touch-IsDisk d op.put_key op.put_ent now ok)
        | inl no_put ↦ rw (no_del, no_put) ok
      ]
    ]

    pub writer_step-IsDisk : (d : Disk p) (now : ℕ) → IsDisk d → IsDisk (writer_step p d now)
    unfolding writer_step
    writer_step-IsDisk d now ok = go d.ops refl
      where
        go : (q : List DiskOp) → d.ops ≡ q → IsDisk (writer_step p d now)
        go [] e = simp (e, writer_step) ok
        go (op ∷ q) e = simp (e, writer_step) (apply_op-IsDisk (record d { ops = q }) op now ok)

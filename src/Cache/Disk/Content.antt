-- ===== src/Cache/Disk/Content.antt =====
-- What `Peek` of internal/wait0/cache/disk.go reads after each operation of the writer.
use wait.Base.{
  ℕ, ◌≡◌, refl, ap, sym, ◌∙◌, Bool, false, not, ◌&&◌, Option, none, some, List, [], ◌∷◌, Str, ◌⊎◌,
  inl, inr, Bool-cases, Option-cases, slt, lookup, ◌==◌, if◌then◌else◌, str_eq,
}
use wait.Cache.Entry.{Entry, DiskOp}
use wait.Cache.Disk.{
  BatchOp, put_op, delete_op, Platform, Disk, entry_key, meta_key, peek, store_entry, touch,
  apply_delete, delete_all, evict_some, apply_put_or_touch, apply_op, meta_of,
}

-- A read of one key after a batch, from what was read before it.
abbrev pub batch_read : {B : Type 0} → List (BatchOp B) → Str → Option B → Option B
batch_read [] k r = r
batch_read (put_op j v ∷ ops) k r = batch_read ops k (if str_eq j k then some v else r)
batch_read (delete_op j ∷ ops) k r = batch_read ops k (if str_eq j k then none else r)

-- LevelDB applies a batch as a whole, and gob decodes what it encoded and encodes every entry.
pub record PlatformLaws (p : Platform) : Type 0 where
  pub reads :
      (db : p.Db) (ops : List (BatchOp p.Blob)) (k : Str)
      → p.read (p.write db ops) k ≡ batch_read ops k (p.read db k)
  pub encodes : (ent : Entry) → (b : p.Blob) × (p.encode_entry ent ≡ some b)
  pub decodes :
      (ent : Entry) (b : p.Blob) → p.encode_entry ent ≡ some b → p.decode_entry b ≡ some ent

meta-entry : (k j : Str) → str_eq (meta_key k) (entry_key j) ≡ false
unfolding str_eq
meta-entry k j = refl

entry-entry : (k j : Str) → str_eq (entry_key k) (entry_key j) ≡ str_eq k j
unfolding str_eq
entry-entry k j = refl

-- What one operation makes of the entry of the key `k`.
unfoldable pub effect : DiskOp → Str → Option Entry → Option Entry
effect op k r =
    if not (str_eq op.del_key [])
    then (if str_eq op.del_key k then none else r)
    else if not (str_eq op.put_key [])
    then (elim op.put_ent [ none ↦ r | some ent ↦ if str_eq op.put_key k then some ent else r ])
    else r

-- `x` is what it should be, or it was evicted.
abbrev pub OrEvicted : Option Entry → Option Entry → Type 0
OrEvicted x y = (x ≡ y) ⊎ (x ≡ none)

module _ (p : Platform) where
  decode? : Option p.Blob → Option Entry
  decode? none = none
  decode? (some b) = p.decode_entry b

  peek_lem : (d : Disk p) (k : Str) → peek p d k ≡ decode? (p.read d.db (entry_key k))
  unfolding peek decode?
  peek_lem d k = elim (Option-cases (p.read d.db (entry_key k))) [
    | inl e ↦ rw (e, peek)
    | inr (b, e) ↦ rw (e, peek)
  ]

  pub apply_delete-db :
      (d : Disk p) (key : Str)
      → (apply_delete p d key).db
        ≡ p.write d.db (delete_op (entry_key key) ∷ delete_op (meta_key key) ∷ [])
  unfolding apply_delete
  apply_delete-db d key = elim (Option-cases (lookup key d.index)) [
    | inl e ↦ rw (e, apply_delete)
    | inr (m, e) ↦ rw (e, apply_delete)
  ]

module _ (p : Platform) where
  -- Whether the operation is a put with which the count, before anything is evicted, is over the
  -- limit.
  unfoldable pub is_over : Disk p → DiskOp → ℕ → Bool
  is_over d op now =
      if str_eq op.del_key [] && not (str_eq op.put_key [])
      then (elim op.put_ent [
        | none ↦ false
        | some ent ↦ elim (p.encode_entry ent) [
          | none ↦ false
          | some b ↦
              slt (store_entry p d op.put_key ent b now).max_bytes
                (store_entry p d op.put_key ent b now).total_size
        ]
      ])
      else false

module _ (p : Platform) (laws : PlatformLaws p) (k : Str) where
  -- What is read after a batch that the database was given.
  peek-batch :
      (d d' : Disk p) (ops : List (BatchOp p.Blob))
      → d'.db ≡ p.write d.db ops
      → peek p d' k ≡ decode? p (batch_read ops (entry_key k) (p.read d.db (entry_key k)))
  peek-batch d d' ops e =
      peek_lem p d' k
      ∙ (ap (λ db. decode? p (p.read db (entry_key k))) e
          ∙ ap (decode? p) (laws.reads d.db ops (entry_key k)))

  pub peek-store_entry :
      (d : Disk p) (key : Str) (ent : Entry) (b : p.Blob) (now : ℕ)
      → p.encode_entry ent ≡ some b
      → peek p (store_entry p d key ent b now) k ≡ (if str_eq key k then some ent else peek p d k)
  unfolding store_entry decode?
  peek-store_entry d key ent b now e =
      peek-batch d (store_entry p d key ent b now) _ refl ∙ (elim (Bool-cases (str_eq key k)) [
        | inl same ↦ simp (meta-entry, entry-entry, same) (laws.decodes ent b e)
        | inr other ↦ simp (meta-entry, entry-entry, other) (sym (peek_lem p d k))
      ])

  pub peek-apply_delete :
      (d : Disk p) (key : Str)
      → peek p (apply_delete p d key) k ≡ (if str_eq key k then none else peek p d k)
  unfolding decode?
  peek-apply_delete d key =
      peek-batch d (apply_delete p d key) _ (apply_delete-db p d key)
      ∙ (elim (Bool-cases (str_eq key k)) [
        | inl same ↦ simp (meta-entry, entry-entry, same)
        | inr other ↦ simp (meta-entry, entry-entry, other) (sym (peek_lem p d k))
      ])

  peek-touch : (d : Disk p) (key : Str) (now : ℕ) → peek p (touch p d key now) k ≡ peek p d k
  unfolding touch
  peek-touch d key now = elim (Bool-cases ((meta_of d.index key).size == 0)) [
    | inl z ↦ rw (z, touch)
    | inr nz ↦
        let meta1 = record (meta_of d.index key) { last_access = now } in
        let ops = put_op (meta_key key) (p.encode_meta meta1) ∷ [] in
        let wrote : (touch p d key now).db ≡ p.write d.db ops = rw (nz, touch) in
        peek-batch d (touch p d key now) ops wrote ∙ (simp (meta-entry) (sym (peek_lem p d k)))
  ]

  pub OrEvicted-trans : {x y z : Option Entry} → OrEvicted x y → OrEvicted y z → OrEvicted x z
  OrEvicted-trans (inl e) (inl f) = inl (e ∙ f)
  OrEvicted-trans (inl e) (inr f) = inr (e ∙ f)
  OrEvicted-trans (inr e) _ = inr e

  delete_all-OrEvicted :
      (d : Disk p) (ks : List Str) → OrEvicted (peek p (delete_all p d ks) k) (peek p d k)
  unfolding delete_all
  delete_all-OrEvicted d [] = inl refl
  delete_all-OrEvicted d (j ∷ ks) =
      OrEvicted-trans (delete_all-OrEvicted (apply_delete p d j) ks)
        (elim (Bool-cases (str_eq j k)) [
          | inl same ↦ inr (peek-apply_delete d j ∙ rw same)
          | inr other ↦ inl (peek-apply_delete d j ∙ rw other)
        ])

  evict_some-OrEvicted : (d : Disk p) → OrEvicted (peek p (evict_some p d) k) (peek p d k)
  unfolding evict_some
  evict_some-OrEvicted d = delete_all-OrEvicted d _

  apply_put-OrEvicted :
      (d : Disk p) (key : Str) (ent : Entry) (now : ℕ)
      → OrEvicted
          (peek p (apply_put_or_touch p d key (some ent) now) k)
          (if str_eq key k then some ent else peek p d k)
  unfolding apply_put_or_touch
  apply_put-OrEvicted d key ent now =
      let (b, e) = laws.encodes ent in
      let d1 = store_entry p d key ent b now in
      let there = peek-store_entry d key ent b now e in
      elim (Bool-cases (slt d1.max_bytes d1.total_size)) [
        | inl over ↦
            simp (e, apply_put_or_touch, over)
              (OrEvicted-trans (evict_some-OrEvicted d1) (inl there))
        | inr fits ↦ simp (e, apply_put_or_touch, fits) (inl there)
      ]

  -- After an operation of the writer a key reads what the operation makes of it, or it was evicted.
  pub apply_op-OrEvicted :
      (d : Disk p) (op : DiskOp) (now : ℕ)
      → OrEvicted (peek p (apply_op p d op now) k) (effect op k (peek p d k))
  unfolding apply_op effect apply_put_or_touch
  apply_op-OrEvicted d op now = elim (Bool-cases (str_eq op.del_key [])) [
    | inr del ↦ rw del (inl (peek-apply_delete d op.del_key))
    | inl no_del ↦ elim (Bool-cases (str_eq op.put_key [])) [
      | inr put ↦ elim (Option-cases op.put_ent) [
        | inl touched ↦
            simp (no_del, put, touched, apply_put_or_touch) (inl (peek-touch d op.put_key now))
        | inr (ent, stored) ↦ simp (no_del, put, stored) (apply_put-OrEvicted d op.put_key ent now)
      ]
      | inl no_put ↦ rw (no_del, no_put) (inl refl)
    ]
  ]

  pub apply_put-kept :
      (d : Disk p) (key : Str) (ent : Entry) (b : p.Blob) (now : ℕ)
      → p.encode_entry ent ≡ some b
      → slt (store_entry p d key ent b now).max_bytes (store_entry p d key ent b now).total_size
        ≡ false
      → peek p (apply_put_or_touch p d key (some ent) now) k
        ≡ (if str_eq key k then some ent else peek p d k)
  unfolding apply_put_or_touch
  apply_put-kept d key ent b now e fits =
      simp (e, apply_put_or_touch, fits) (peek-store_entry d key ent b now e)

  -- An operation that does not bring the count over the limit evicts nothing.
  pub apply_op-effect :
      (d : Disk p) (op : DiskOp) (now : ℕ)
      → is_over p d op now ≡ false
      → peek p (apply_op p d op now) k ≡ effect op k (peek p d k)
  unfolding apply_op effect apply_put_or_touch is_over
  apply_op-effect d op now within = elim (Bool-cases (str_eq op.del_key [])) [
    | inr del ↦ rw del (peek-apply_delete d op.del_key)
    | inl no_del ↦ elim (Bool-cases (str_eq op.put_key [])) [
      | inr put ↦ elim (Option-cases op.put_ent) [
        | inl touched ↦
            simp (no_del, put, touched, apply_put_or_touch) (peek-touch d op.put_key now)
        | inr (ent, stored) ↦
            let (b, e) = laws.encodes ent in
            let fits = simp (no_del, put, stored, e, is_over) at within in
            simp (no_del, put, stored) (apply_put-kept d op.put_key ent b now e fits)
      ]
      | inl no_put ↦ rw (no_del, no_put) refl
    ]
  ]

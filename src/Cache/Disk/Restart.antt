-- ===== src/Cache/Disk/Restart.antt =====
-- A restart of internal/wait0/cache/disk.go: `loadIndex` on the database that the writer has left.
use wait.Base.{
  Bool, ℕ, ◌%◌, ◌≡◌, refl, sym, ap, ◌∙◌, true, false, Option, none, some, List, [], ◌∷◌, Str, str,
  Dict, lookup, insert, delete, lookup-insert, lookup-delete, Unique, All, two64, add64,
  if◌then◌else◌, str_eq, str_eq_iff, str_eq_refl, has_prefix, Option-cases, inl, inr, arith,
  delete-Unique,
}
use wait.Cache.Disk.{DiskMeta, Platform, Disk, meta_key, trim_meta, load_items, new_disk, peek}
use wait.Cache.Disk.Total.{sum, size_of, sum-insert, sum-delete, IsDisk, insert-Unique}

-- Indices with the same entries have the same sum.
sum_same :
    (a b : Dict DiskMeta)
    → Unique a
    → Unique b
    → ((k : Str) → lookup k a ≡ lookup k b)
    → sum a ≡ sum b
unfolding lookup
sum_same [] [] ua ub same = refl
sum_same [] ((k, m) ∷ b) ua ub same = absurd (let e = same k in ground (arith, e, str_eq_refl k))
sum_same ((j, m) ∷ a) b ua ub same =
    let here : lookup j b ≡ some m = ground (arith, same j, str_eq_refl j) in
    let rest =
      sum_same a (delete j b) ua.1 (delete-Unique j b ub)
        (λ k. ground (arith, same k, lookup-delete j k b, ua.0, str_eq_iff j k)) in
    let taken = sum-delete j b ub in
    let size : size_of b j ≡ m.size = rw (here, size_of) in omega (arith, rest, taken, size)

module _ (p : Platform) where
  unfoldable pub decode_of : Option p.Blob → Option DiskMeta
  decode_of none = none
  decode_of (some b) = p.decode_meta b

  -- The database has the index, encoded, beside the entries.
  abbrev pub IsPersisted : Disk p → Type 0
  IsPersisted d = (k : Str) → decode_of (p.read d.db (meta_key k)) ≡ lookup k d.index

  -- gob decodes the metadata that it encoded.
  abbrev pub DecodesMeta : Type 0
  DecodesMeta = (m : DiskMeta) → p.decode_meta (p.encode_meta m) ≡ some m

  abbrev HasMetaKey : Str × p.Blob → Type 0
  HasMetaKey kv = (k : Str) × (kv.0 ≡ meta_key k)

  -- The iterator over a prefix gives each key with the prefix once, with what a read gives, and no
  -- other, and comes to its end without an error.
  pub record ScanLaws (db : p.Db) : Type 0 where
    pub lists : (k : Str) → lookup (meta_key k) (p.scan db (str "m:")) ≡ p.read db (meta_key k)
    pub once : Unique (p.scan db (str "m:"))
    pub prefixed : All HasMetaKey (p.scan db (str "m:"))
    pub works : p.scan_failed db (str "m:") ≡ false

  or_kept : Option DiskMeta → Option DiskMeta → Option DiskMeta
  or_kept none r = r
  or_kept (some m) r = some m

  or_kept-none : (o : Option DiskMeta) → or_kept o none ≡ o
  unfolding or_kept
  or_kept-none none = refl
  or_kept-none (some m) = refl

  trim_meta-meta_key : (k : Str) → trim_meta (meta_key k) ≡ k
  unfolding trim_meta has_prefix
  trim_meta-meta_key k = refl

  pub meta-meta : (k j : Str) → str_eq (meta_key k) (meta_key j) ≡ str_eq k j
  unfolding str_eq
  meta-meta k j = refl

  skips_none :
      (b : Bool) (v : p.Blob) (o : Option p.Blob) (r : Option DiskMeta)
      → p.decode_meta v ≡ none
      → (b ≡ true → o ≡ none)
      → or_kept (decode_of o) r ≡ or_kept (decode_of (if b then some v else o)) r
  unfolding or_kept decode_of
  skips_none true v o r e absent = rw (absent refl) (rw e refl)
  skips_none false v o r e absent = refl

  keeps_some :
      (b : Bool) (v : p.Blob) (o : Option p.Blob) (m : DiskMeta) (r r' : Option DiskMeta)
      → p.decode_meta v ≡ some m
      → (b ≡ true → o ≡ none)
      → r' ≡ (if b then some m else r)
      → or_kept (decode_of o) r' ≡ or_kept (decode_of (if b then some v else o)) r
  unfolding or_kept decode_of
  keeps_some true v o m r r' e absent is = rw (absent refl) (rw e (rw is refl))
  keeps_some false v o m r r' e absent is = rw is refl

  trimmed : (i j k : Str) → j ≡ meta_key i → str_eq (trim_meta j) k ≡ str_eq j (meta_key k)
  trimmed i j k is =
      ap (λ x. str_eq (trim_meta x) k) is
      ∙ (ap (λ x. str_eq x k) (trim_meta-meta_key i)
          ∙ (sym (meta-meta i k) ∙ ap (λ x. str_eq x (meta_key k)) (sym is)))

  -- The first key of the iterator stands in it once.
  absent :
      (j k : Str) (it : List (Str × p.Blob))
      → lookup j it ≡ none
      → str_eq j (meta_key k) ≡ true
      → lookup (meta_key k) it ≡ none
  absent j k it u q = ap (λ x. lookup x it) (sym ((str_eq_iff j (meta_key k)).0 q)) ∙ u

  other :
      (j k : Str) (it : List (Str × p.Blob)) (b : p.Blob)
      → lookup j it ≡ none
      → lookup (meta_key k) it ≡ some b
      → str_eq j (meta_key k) ≡ false
  other j k it b u h = ground (arith, absent j k it u, h)

  load_items-lookup :
      (k : Str) (it : List (Str × p.Blob)) (idx : Dict DiskMeta) (total : ℕ)
      → Unique it
      → All HasMetaKey it
      → lookup k (load_items p it idx total).0
        ≡ or_kept (decode_of (lookup (meta_key k) it)) (lookup k idx)
  unfolding load_items lookup or_kept decode_of
  load_items-lookup k [] idx total u a = refl
  load_items-lookup k ((j, v) ∷ it) idx total u a = elim (Option-cases (p.decode_meta v)) [
    | inl e ↦
        simp (e, load_items)
          (load_items-lookup k it idx total u.1 a.1
            ∙ skips_none (str_eq j (meta_key k)) v (lookup (meta_key k) it) (lookup k idx) e
                (absent j k it u.0))
    | inr (m, e) ↦
        simp (e, load_items)
          (load_items-lookup k it (insert (trim_meta j) m idx) (add64 total m.size) u.1 a.1
            ∙ keeps_some (str_eq j (meta_key k)) v (lookup (meta_key k) it) m (lookup k idx)
                (lookup k (insert (trim_meta j) m idx)) e (absent j k it u.0)
                (lookup-insert (trim_meta j) k m idx
                  ∙ ap (λ (b : Bool). if b then some m else lookup k idx)
                      (trimmed a.0.0 j k a.0.1)))
  ]

  abbrev IsNew : List (Str × p.Blob) → Dict DiskMeta → Type 0
  IsNew it idx = (k : Str) (b : p.Blob) → lookup (meta_key k) it ≡ some b → lookup k idx ≡ none

  IsNew-tail :
      (j : Str) (v : p.Blob) (it : List (Str × p.Blob)) (idx : Dict DiskMeta)
      → lookup j it ≡ none
      → IsNew ((j, v) ∷ it) idx
      → IsNew it idx
  unfolding lookup
  IsNew-tail j v it idx u new k b h = let ne = other j k it b u h in new k b (ground (arith, ne, h))

  IsNew-head :
      (j : Str) (v : p.Blob) (it : List (Str × p.Blob)) (idx : Dict DiskMeta)
      → HasMetaKey (j, v)
      → IsNew ((j, v) ∷ it) idx
      → lookup (trim_meta j) idx ≡ none
  unfolding lookup
  IsNew-head j v it idx (i, is) new =
      ap (λ x. lookup x idx) (ap trim_meta is ∙ trim_meta-meta_key i)
      ∙ new i v (ground (arith, str_eq_iff j (meta_key i), is))

  IsNew-insert :
      (j : Str) (v : p.Blob) (m : DiskMeta) (it : List (Str × p.Blob)) (idx : Dict DiskMeta)
      → lookup j it ≡ none
      → HasMetaKey (j, v)
      → IsNew it idx
      → IsNew it (insert (trim_meta j) m idx)
  IsNew-insert j v m it idx u (i, is) new k b h =
      ground (
        arith,
        lookup-insert (trim_meta j) k m idx,
        trimmed i j k is,
        other j k it b u h,
        new k b h,
      )

  -- The total is the sum of the sizes, where no key of the iterator is in the index yet.
  load_items-sum :
      (it : List (Str × p.Blob)) (idx : Dict DiskMeta) (total : ℕ)
      → Unique it
      → All HasMetaKey it
      → Unique idx
      → IsNew it idx
      → total ≡ sum idx % two64
      → Unique (load_items p it idx total).0
        × ((load_items p it idx total).1 ≡ sum (load_items p it idx total).0 % two64)
  unfolding load_items
  load_items-sum [] idx total u a ui new is_sum = (ui, is_sum)
  load_items-sum ((j, v) ∷ it) idx total u a ui new is_sum =
      let tail = IsNew-tail j v it idx u.0 new in
      elim (Option-cases (p.decode_meta v)) [
        | inl e ↦ simp (e, load_items) (load_items-sum it idx total u.1 a.1 ui tail is_sum)
        | inr (m, e) ↦
            let fresh = IsNew-head j v it idx a.0 new in
            let size : size_of idx (trim_meta j) ≡ 0 = rw (fresh, size_of) in
            simp (e, load_items)
              (load_items-sum it (insert (trim_meta j) m idx) (add64 total m.size) u.1 a.1
                (insert-Unique (trim_meta j) m idx ui) (IsNew-insert j v m it idx u.0 a.0 tail)
                (omega (arith, is_sum, sum-insert (trim_meta j) m idx, size)))
      ]

  -- What is the same before a restart and after it.
  pub record IsRestored (d d' : Disk p) : Type 0 where
    pub index : (k : Str) → lookup k d'.index ≡ lookup k d.index
    pub total : d'.total_size ≡ d.total_size
    pub entries : (k : Str) → peek p d' k ≡ peek p d k
    pub persisted : IsPersisted d'
    pub ok : IsDisk p d'

  pub new_disk-IsRestored :
      (d : Disk p) (max_bytes : ℕ)
      → IsDisk p d
      → IsPersisted d
      → ScanLaws d.db
      → (d' : Disk p) × (new_disk p d.db max_bytes ≡ some d') × IsRestored d d'
  unfolding new_disk load_items trim_meta peek or_kept lookup
  new_disk-IsRestored d max_bytes ok kept scan =
      let it = p.scan d.db (str "m:") in
      let loaded = load_items p it [] 0 in
      let sums = load_items-sum it [] 0 scan.once scan.prefixed tt (λ k b h. refl) (omega arith) in
      let same : (k : Str) → lookup k loaded.0 ≡ lookup k d.index = λ k.
        load_items-lookup k it [] 0 scan.once scan.prefixed
        ∙ (or_kept-none (decode_of (lookup (meta_key k) it))
            ∙ (ap decode_of (scan.lists k) ∙ kept k)) in
      (
        record {
          max_bytes = max_bytes;
          db = d.db;
          index = loaded.0;
          total_size = loaded.1;
          ops = [];
        },
        simp (scan.works, new_disk) refl,
        record {
          index = same;
          total =
              sums.1
              ∙ (ap (λ n. n % two64) (sum_same loaded.0 d.index sums.0 ok.unique same)
                  ∙ sym ok.summed);
          entries = λ k. refl;
          persisted = λ k. kept k ∙ sym (same k);
          ok = record {
            summed = sums.1;
            unique = sums.0;
            lengths = λ k m e. ok.lengths k m (sym (same k) ∙ e);
          };
        },
      )

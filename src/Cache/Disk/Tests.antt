-- ===== src/Cache/Disk/Tests.antt =====
-- Runs of internal/wait0/cache/disk.go over a database that is an association list, and the
-- theorems at that platform.
use wait.Base.{
  has_prefix, ◌≡◌, ◌⊎◌, refl, true, false, none, some, List, [], ◌∷◌, Str, str, Dict, arith, ap,
  ◌∙◌, lookup, insert, delete, lookup-insert, lookup-delete, str_eq, if◌then◌else◌,
}
use wait.Cache.Entry.{Entry, zero_entry, entry_logical_size, put_async}
use wait.Cache.Disk.{
  DiskMeta, BatchOp, put_op, delete_op, Platform, Disk, put_later, delete_later, peek, apply_op,
  apply_put_or_touch, apply_delete, store_entry, touch, writer_step, evict_some, delete_all,
  key_count, entry_meta, new_disk, trim_meta,
}
use wait.Cache.Disk.Content.{PlatformLaws, batch_read}
use wait.Cache.Disk.Drain.{effects, writer_run, goes_over, writer_run-effects}
use wait.Cache.Disk.Restart.{decode_of, IsPersisted, ScanLaws, IsRestored}
use wait.Cache.Disk.Persists.{writer_run-new_disk}
use wait.Cache.Disk.Total.{IsDisk, apply_op-IsDisk}

data Blob : Type 0 where
  entry_blob : Entry → Blob
  meta_blob : DiskMeta → Blob

abbrev write_all : Dict Blob → List (BatchOp Blob) → Dict Blob
write_all db [] = db
write_all db (put_op k v ∷ ops) = write_all (insert k v db) ops
write_all db (delete_op k ∷ ops) = write_all (delete k db) ops

-- The keys that start with the text.
abbrev prefixed : Dict Blob → Str → Dict Blob
prefixed [] k = []
prefixed ((j, v) ∷ db) k =
    let rest = prefixed db k in if has_prefix j k then (j, v) ∷ rest else rest

abbrev listed : Platform
listed = record {
  Db = Dict Blob;
  Blob = Blob;
  blob_len = λ b. 10;
  read = λ db k. lookup k db;
  write = write_all;
  scan = prefixed;
  scan_failed = λ db k. false;
  encode_entry = λ ent. some (entry_blob ent);
  decode_entry = λ b. elim b [ entry_blob ent ↦ some ent | meta_blob m ↦ none ];
  encode_meta = meta_blob;
  decode_meta = λ b. elim b [ entry_blob ent ↦ none | meta_blob m ↦ some m ];
  by_access = λ m. m;
}

write_all-batch_read :
    (db : Dict Blob) (ops : List (BatchOp Blob)) (k : Str)
    → lookup k (write_all db ops) ≡ batch_read ops k (lookup k db)
write_all-batch_read db [] k = refl
write_all-batch_read db (put_op j v ∷ ops) k =
    write_all-batch_read (insert j v db) ops k ∙ ap (batch_read ops k) (lookup-insert j k v db)
write_all-batch_read db (delete_op j ∷ ops) k =
    write_all-batch_read (delete j db) ops k ∙ ap (batch_read ops k) (lookup-delete j k db)

listed-laws : PlatformLaws listed
listed-laws = record {
  reads = write_all-batch_read;
  encodes = λ ent. (entry_blob ent, refl);
  decodes = λ ent b e. cc;
}

abbrev page : Entry
page = record zero_entry { status = 200; body = 1 ∷ 2 ∷ 3 ∷ [] }

abbrev empty : Disk listed
empty = record { max_bytes = 25; db = []; index = []; total_size = 0; ops = [] }

abbrev queued : Disk listed
queued =
    delete_later listed (put_later listed (put_later listed empty (str "/a") page) (str "/b") page)
      (str "/a")

program : Unit {0}
unfolding put_later delete_later put_async peek apply_op apply_put_or_touch apply_delete store_entry
    entry_meta touch writer_step evict_some delete_all writer_run lookup insert delete str_eq
    entry_logical_size key_count has_prefix trim_meta new_disk decode_of
program = tt

after_run :
    (peek listed (writer_run listed (1 ∷ 2 ∷ 3 ∷ []) queued) (str "/a") ≡ none)
    × (peek listed (writer_run listed (1 ∷ 2 ∷ 3 ∷ []) queued) (str "/b") ≡ some page)
    × ((writer_run listed (1 ∷ 2 ∷ 3 ∷ []) queued).total_size ≡ 10)
unfolding program
after_run = (refl, refl, refl)

empty-IsDisk : IsDisk listed empty
unfolding lookup
empty-IsDisk = record { summed = refl; unique = tt; lengths = λ k m e. absurd (ground arith) }

apply_op-IsDisk_example :
    IsDisk listed
      (apply_op listed empty (record { put_key = str "/a"; put_ent = some page; del_key = [] }) 5)
apply_op-IsDisk_example =
    apply_op-IsDisk listed (λ ent b e. omega arith) empty
      (record { put_key = str "/a"; put_ent = some page; del_key = [] }) 5 empty-IsDisk

writer_run-effects_example :
    ((writer_run listed (1 ∷ 2 ∷ 3 ∷ []) queued).ops ≡ [])
    × ((peek listed (writer_run listed (1 ∷ 2 ∷ 3 ∷ []) queued) (str "/a")
          ≡ effects queued.ops (str "/a") (peek listed queued (str "/a")))
        ⊎ ((peek listed (writer_run listed (1 ∷ 2 ∷ 3 ∷ []) queued) (str "/a") ≡ none)
            × (goes_over listed (1 ∷ 2 ∷ 3 ∷ []) queued ≡ true)))
unfolding program
writer_run-effects_example =
    writer_run-effects listed listed-laws (str "/a") (1 ∷ 2 ∷ 3 ∷ []) queued.ops queued refl refl

queued-IsPersisted : IsPersisted listed queued
unfolding program
queued-IsPersisted k = refl

abbrev restarted : Disk listed
restarted = writer_run listed (1 ∷ 2 ∷ 3 ∷ []) queued

restarted-ScanLaws : ScanLaws listed restarted.db
unfolding program
restarted-ScanLaws = record {
  lists = λ k. refl;
  once = (refl, tt);
  prefixed = ((str "/b", refl), tt);
  works = refl;
}

queued-IsDisk : IsDisk listed queued
unfolding program
queued-IsDisk = record { summed = refl; unique = tt; lengths = λ k m e. absurd (ground arith) }

-- The index after the restart has the key that was not deleted.
writer_run-new_disk_example :
    (d' : Disk listed) × (new_disk listed restarted.db 25 ≡ some d')
    × IsRestored listed restarted d'
writer_run-new_disk_example =
    writer_run-new_disk listed listed-laws (λ m. refl) (λ ent b e. omega arith) (1 ∷ 2 ∷ 3 ∷ [])
      queued 25 queued-IsDisk queued-IsPersisted restarted-ScanLaws

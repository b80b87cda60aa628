-- ===== src/Invalidation/Jobs.antt =====
-- internal/wait0/invalidation/controller.go, `processJob`: a job of the queue is turned into keys,
-- the keys are deleted from the two caches, and fetched again. A worker runs the stages one after
-- the other; a Go map is read in any order, so the order of the deletions and that in which the
-- refreshes come to their end are arguments. The refreshes are those of internal/wait0/
-- revalidation, each as one step.
pub mod Deletes
pub mod Renews
pub mod Resolves
mod Tests
use wait.Base.{
  ℕ, ◌+◌, ◌≡◌, Bool, true, false, not, ◌||◌, ◌&&◌, Option, List, [], ◌∷◌, ◌++◌, Str, str, str_eq,
  str_eq_iff, member, unique_from, member-unique_from, member-append, any, length, ◌==◌,
  if◌then◌else◌, refl, ap, arith,
}
use wait.Cache.Ram.{ram_keys}
use wait.Cache.Disk.{Platform, disk_keys}
use wait.Proxy.{Service, Settings, Times, delete_everywhere}
use wait.Revalidation.Once.{Task, once}
use wait.Invalidation.Handle.{Job}
use wait.Invalidation.Cached.{cached_keys, key_tags, has_key}

-- What one refresh is given beside its key.
pub record Visit : Type 0 where
  pub times : Times
  pub markers : Option (Str × Str)
  pub dur : ℕ
  pub err : Str

-- What the log line of a job is made of.
pub record JobSummary : Type 0 where
  pub requested_paths : ℕ
  pub requested_tags : ℕ
  pub resolved_keys : ℕ
  pub invalidated : ℕ
  pub recrawled : ℕ
  pub recrawl_errs : ℕ

-- Some tag of a key is one of the job's.
unfoldable pub has_tag : List Str → List Str → Bool
has_tag tags of_key = any (λ t. member t tags) of_key

-- `RecrawlKey` of the adapter: the task of its refresh.
unfoldable pub recrawl_task : Visit → Str → Task
recrawl_task v key = record {
  key = key;
  path = key;
  query = [];
  by = str "invalidate";
  markers = v.markers;
  dur = v.dur;
  err = v.err;
}

module _ (p : Platform) where
  unfoldable pub tagged : List Str → Service p → List Str → List Str
  tagged tags s [] = []
  tagged tags s (k ∷ ks) =
      let rest = tagged tags s ks in if has_tag tags (key_tags p k s) then k ∷ rest else rest

  unfoldable pub resolve_keys_by_tags : List Str → Service p → List Str
  resolve_keys_by_tags [] s = []
  resolve_keys_by_tags (t ∷ tags) s = tagged (t ∷ tags) s (cached_keys p s)

  -- The keys of a job: its paths, and the cached keys that have one of its tags, each once.
  unfoldable pub resolve_keys : Job → Service p → List Str
  resolve_keys job s = unique_from [] (job.paths ++ resolve_keys_by_tags job.tags s)

  -- The caches after the deletions, and how many of the keys were there.
  unfoldable pub invalidate_keys : List Str → Service p → Service p × ℕ
  invalidate_keys [] s = (s, 0)
  invalidate_keys (k ∷ ks) s =
      let r = invalidate_keys ks (delete_everywhere p k s) in
      (r.0, (if has_key p k s then 1 else 0) + r.1)

  -- The caches after the refreshes, how many gave an entry, and how many failed.
  unfoldable pub recrawl_keys :
      Settings → (Str → Visit) → List Str → Service p → Service p × (ℕ × ℕ)
  recrawl_keys cfg visits [] s = (s, (0, 0))
  recrawl_keys cfg visits (k ∷ ks) s =
      let o = once p cfg (visits k).times (recrawl_task (visits k) k) s in
      let r = recrawl_keys cfg visits ks o.0 in
      (
        r.0,
        (
          (if str_eq o.1.kind (str "updated") || str_eq o.1.kind (str "unchanged") then 1 else 0)
              + r.1.0,
          (if str_eq o.1.kind (str "error") then 1 else 0) + r.1.1,
        ),
      )

  unfoldable pub process_job :
      Settings
      → (Str → Visit)
      → (List Str → List Str)
      → (List Str → List Str)
      → Job
      → Service p
      → Service p × JobSummary
  process_job cfg visits deleting finishing job s =
      let resolved = deleting (resolve_keys job s) in
      let deleted = invalidate_keys resolved s in
      let recrawled = recrawl_keys cfg visits (finishing resolved) deleted.0 in
      (
        recrawled.0,
        record {
          requested_paths = length job.paths;
          requested_tags = length job.tags;
          resolved_keys = length resolved;
          invalidated = deleted.1;
          recrawled = recrawled.1.0;
          recrawl_errs = recrawled.1.1;
        },
      )

  member-tagged :
      (k : Str) (tags : List Str) (s : Service p) (ks : List Str)
      → member k (tagged tags s ks) ≡ (member k ks && has_tag tags (key_tags p k s))
  unfolding tagged member
  member-tagged k tags s [] = refl
  member-tagged k tags s (j ∷ ks) = ground (
    arith,
    member-tagged k tags s ks,
    str_eq_iff j k,
    λ (e : j ≡ k). ap (λ x. has_tag tags (key_tags p x s)) e,
  )

  no_tag : (of_key : List Str) → has_tag [] of_key ≡ false
  unfolding has_tag member
  no_tag [] = refl
  no_tag (t ∷ of_key) = no_tag of_key

  member-resolve_keys_by_tags :
      (k : Str) (tags : List Str) (s : Service p)
      → member k (resolve_keys_by_tags tags s)
        ≡ (member k (cached_keys p s) && has_tag tags (key_tags p k s))
  unfolding resolve_keys_by_tags member
  member-resolve_keys_by_tags k [] s = ground (arith, no_tag (key_tags p k s))
  member-resolve_keys_by_tags k (t ∷ tags) s = member-tagged k (t ∷ tags) s (cached_keys p s)

  -- The keys of a job are its paths, whether cached or not, and the keys of memory or of the disk
  -- whose entry (that of memory, where both have one) has one of the job's tags.
  pub member-resolve_keys :
      (k : Str) (job : Job) (s : Service p)
      → member k (resolve_keys job s) ≡ (
          member k job.paths
          || ((member k (ram_keys s.ram) || member k (disk_keys p s.disk))
              && has_tag job.tags (key_tags p k s)))
  unfolding resolve_keys cached_keys member
  member-resolve_keys k job s = ground (
    arith,
    member-unique_from k [] (job.paths ++ resolve_keys_by_tags job.tags s),
    member-append k job.paths (resolve_keys_by_tags job.tags s),
    member-resolve_keys_by_tags k job.tags s,
    member-unique_from k [] (ram_keys s.ram ++ disk_keys p s.disk),
    member-append k (ram_keys s.ram) (disk_keys p s.disk),
  )

-- ===== src/Invalidation/Jobs/Tests.antt =====
-- Runs of `processJob` of internal/wait0/invalidation/controller.go, and of the count of cached paths.
use wait.Base.{
  ◌≡◌, ◌⊎◌, ◌↔◌, true, refl, none, [], ◌∷◌, str, str_eq, lookup, insert, delete, has_prefix,
  trim_space, trim_left, is_space, split, split_at, member, trimmed_unique, unique_from, length,
  Distinct,
}
use wait.Cache.Entry.{Entry, entry_logical_size, put_async, offer}
use wait.Cache.Ram.{new_ram, add_item, add_to_front, put, ram_keys, drop_item, remove, delete_key}
use wait.Cache.Disk.{delete_later, put_later, disk_keys, key_count}
use wait.Cache.Ram as Memory
use wait.Cache.Disk as Stored
use wait.Proxy.Origin.{
  header_get, header_values, to_lower, contains, forbids_caching, is_success, Response,
}
use wait.Proxy.{encoded, ram_put, store, delete_everywhere, Service}
use wait.Proxy.Store.{IsService}
use wait.Proxy.Valid.{store-IsService}
use wait.Proxy.Samples.{empty, fresh, page, settings, times, fresh-IsService}
use wait.Revalidation.Once.{
  Task, uri_of, request_header, discovered_by_of, result_of, new_entry, same_hash, peek_either,
  drop_current, keep_new, on_response, once,
}
use wait.Invalidation.Handle.{Job}
use wait.Invalidation.Cached.{split_all, entry_tags, cached_keys, key_tags, has_key}
use wait.Invalidation.Jobs.{
  Visit, has_tag, recrawl_task, tagged, resolve_keys_by_tags, resolve_keys, invalidate_keys,
  recrawl_keys, process_job,
}
use wait.Invalidation.Jobs.Resolves.{IsTagged, resolve_keys-IsTagged}
use wait.Invalidation.Jobs.Deletes.{present, invalidate_keys-peek, invalidate_keys-present}
use wait.Invalidation.Jobs.Renews.{process_job-fresh, process_job-IsService}
use wait.Stats.Service.{intersect, cached_paths_count, cached_paths_count-cached_keys}

program : Unit {0}
unfolding str_eq lookup insert delete has_prefix trim_space trim_left is_space split split_at member
    trimmed_unique unique_from entry_logical_size put_async offer new_ram add_item add_to_front put
    ram_keys drop_item remove delete_key delete_later put_later disk_keys key_count Distinct
    Memory.make_room Memory.peek Stored.peek Stored.has_key header_get to_lower contains
    forbids_caching is_success encoded ram_put store delete_everywhere uri_of request_header
    discovered_by_of result_of new_entry same_hash peek_either drop_current keep_new on_response
    once header_values split_all entry_tags cached_keys key_tags has_key has_tag recrawl_task tagged
    resolve_keys_by_tags resolve_keys invalidate_keys recrawl_keys process_job intersect
    cached_paths_count present
program = tt

-- A page with two tags, kept in memory under two keys.
abbrev tagged_page : Response
tagged_page = record {
  status = 200;
  header = (str "X-Wait0-Tag", str "news, home" ∷ []) ∷ [];
  body = 1 ∷ [];
}

abbrev visit : Visit
visit = record { times = times; markers = none; dur = 1; err = [] }

abbrev job : Job
job = record {
  request_id = str "inv_1";
  actor_id = str "ops";
  paths = str "/b" ∷ [];
  tags = str "home" ∷ [];
  received_at = 1;
  remote_addr = [];
  user_agent = [];
}

abbrev old_task : Task
old_task = record {
  key = str "/a";
  path = str "/a";
  query = [];
  by = str "warmup";
  markers = none;
  dur = 1;
  err = [];
}

abbrev warm : Service empty
warm =
    store empty settings times (str "/a") (new_entry settings times old_task none tagged_page) fresh

warm-IsService : IsService empty warm
warm-IsService =
    store-IsService empty settings times (str "/a")
      (new_entry settings times old_task none tagged_page) fresh fresh-IsService

resolved_keys : resolve_keys empty job warm ≡ str "/b" ∷ str "/a" ∷ []
unfolding program
resolved_keys = refl

counts : (process_job empty settings (λ k. visit) (λ ks. ks) (λ ks. ks) job warm).1.invalidated ≡ 1
unfolding program
counts = refl

resolve_keys-IsTagged_example : (member (str "/a") (resolve_keys empty job warm) ≡ true) ↔ (
    (member (str "/a") job.paths ≡ true)
    ⊎ (((member (str "/a") (ram_keys warm.ram) ≡ true)
          ⊎ (member (str "/a") (disk_keys empty warm.disk) ≡ true))
        × IsTagged empty warm job.tags (str "/a")))
resolve_keys-IsTagged_example = resolve_keys-IsTagged empty (str "/a") job warm

invalidate_keys-peek_example :
    Memory.peek (invalidate_keys empty (str "/a" ∷ []) warm).0.ram (str "/a") ≡ none
unfolding program
invalidate_keys-peek_example =
    invalidate_keys-peek empty (str "/a") (str "/a" ∷ []) warm warm-IsService

invalidate_keys-present_example :
    (invalidate_keys empty (str "/a" ∷ str "/b" ∷ []) warm).1
    ≡ present empty (str "/a" ∷ str "/b" ∷ []) warm
unfolding program
invalidate_keys-present_example =
    invalidate_keys-present empty (str "/a" ∷ str "/b" ∷ []) warm warm-IsService (refl, (refl, tt))

abbrev recrawled_a : Entry
recrawled_a = new_entry settings times (recrawl_task visit (str "/a")) none page

process_job-fresh_example : recrawled_a.revalidated_by ≡ str "invalidate"
unfolding program
process_job-fresh_example =
    process_job-fresh empty settings (λ k. visit) (λ ks. ks) (λ ks. ks) job warm (str "/a")
      recrawled_a warm-IsService (λ j js. refl) refl refl

process_job-IsService_example :
    IsService empty (process_job empty settings (λ k. visit) (λ ks. ks) (λ ks. ks) job warm).0
process_job-IsService_example =
    process_job-IsService empty settings (λ k. visit) (λ ks. ks) (λ ks. ks) job warm warm-IsService

cached_paths_count-cached_keys_example :
    cached_paths_count empty warm ≡ length (cached_keys empty warm)
cached_paths_count-cached_keys_example = cached_paths_count-cached_keys empty warm warm-IsService

-- ===== src/Stats/Api/Tests.antt =====
-- Runs of internal/wait0/statapi/controller.go.
use wait.Base.{
  ◌≡◌, refl, none, some, List, [], ◌∷◌, str, str_eq, lookup, insert, member, trim_space, trim_left,
  is_space, equal_fold, fold_case, unique_from,
}
use wait.Cache.Entry.{Entry, zero_entry, entry_logical_size, put_async, offer}
use wait.Cache.Ram.{new_ram, add_item, add_to_front, put, item_meta, make_room}
use wait.Cache.Ram as Memory
use wait.Cache.Disk as Stored
use wait.Cache.Disk.{disk_meta, put_later}
use wait.Auth.{
  TokenConfig, scope_set, to_token, tokens_of, new_authenticator, fields_from, fields, bearer_token,
  parse_bearer_token, find_token, authenticate_bearer, authorized_for_scope,
}
use wait.Proxy.{Service, encoded, ram_put, store}
use wait.Proxy.Samples.{empty, fresh, settings, times}
use wait.Stats.Api.{
  StatRequest, Controller, to_stat_meta, refresh_duration_stats_millis, size_of, is_from_sitemap,
  count_meta, meta_at, count_keys, resp_stats, is_endpoint_path, ram_meta, disk_meta_of, all_keys,
  totals_of, build_snapshot, get_snapshot, after_auth, handle,
}
use wait.Stats.Api.Bounds.{sum_sizes}
use wait.Stats.Api.Fresh.{Moment, begins, requested, IsFresh, handle-IsFresh}

program : Unit {0}
unfolding str_eq lookup insert member trim_space trim_left is_space equal_fold fold_case unique_from
    entry_logical_size put_async offer new_ram add_item add_to_front put item_meta make_room
    Memory.meta_snapshot Stored.meta_snapshot disk_meta put_later scope_set to_token tokens_of
    new_authenticator fields_from fields bearer_token parse_bearer_token find_token
    authenticate_bearer authorized_for_scope encoded ram_put store to_stat_meta
    refresh_duration_stats_millis size_of is_from_sitemap count_meta meta_at count_keys resp_stats
    is_endpoint_path ram_meta disk_meta_of all_keys totals_of build_snapshot get_snapshot after_auth
    handle sum_sizes
program = tt

abbrev found : Entry
found = record zero_entry { body = 1 ∷ 2 ∷ 3 ∷ []; discovered_by = str "Sitemap" }

-- A cache in memory with two entries.
abbrev warm : Service empty
warm =
    store empty settings times (str "/b") zero_entry
      (store empty settings times (str "/a") found fresh)

abbrev tokens : List TokenConfig
tokens = record { id = str "ci"; token = str "t"; scopes = str "stats:read" ∷ [] } ∷ []

abbrev controller : Controller
controller = record { authn = some (new_authenticator tokens); kept = none }

abbrev request : StatRequest
request = record { method = str "GET"; path = str "/wait0"; authorization = str "Bearer t" }

snapshot_run :
    (build_snapshot empty none 9 warm).response_size_bytes ≡ record { min = 0; avg = 1; max = 3 }
unfolding program
snapshot_run = refl

abbrev moment : Moment empty
moment = record { at = 9; stats = none; service = warm }

abbrev later : Moment empty
later = record { at = 10; stats = none; service = fresh }

-- The second request gets the snapshot of the first one, although the caches are empty by then.
handle-IsFresh_example :
    IsFresh empty later
      (moment ∷ [])
      (authenticate_bearer (some (new_authenticator tokens)) (str "Bearer t"))
      (build_snapshot empty none 9 warm)
unfolding program
handle-IsFresh_example =
    handle-IsFresh empty (some (new_authenticator tokens)) (moment ∷ [])
      (handle empty none 9 warm request controller).0 later request
      (build_snapshot empty none 9 warm) (requested moment request [] controller begins) refl

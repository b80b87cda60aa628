-- ===== src/Stats/Api.antt =====
-- internal/wait0/statapi/controller.go, over the caches as internal/wait0/stats_runtime_adapter.go
-- gives them. A time is its nanoseconds, an int64. The text of a time, the reads of /proc and of the
-- Go runtime, and the percentage (a float, of the two counts that are here) are left out.
pub mod Bounds
pub mod Fresh
mod Tests
use wait.Base.{
  ℕ, suc, ◌+◌, ◌*◌, ◌/◌, ◌-◌, ◌^◌, ◌≡◌, Bool, true, false, not, ◌&&◌, ◌||◌, Option, none, some,
  List, [], ◌∷◌, ◌++◌, Str, str, str_eq, Dict, lookup, keys, unique_from, trim_space, equal_fold,
  length, if◌then◌else◌, ltb, slt, is_pos, add64, sub64, max_uint64, ◌==◌,
}
use wait.Cache.Entry.{EntryMeta}
use wait.Cache.Ram.{second, map_values}
use wait.Cache.Disk.{Platform}
use wait.Cache.Ram as Memory
use wait.Cache.Disk as Stored
use wait.Auth.{Authenticator, Principal, authenticate_bearer, authorized_for_scope}
use wait.Proxy.{Service}
use wait.Stats.Collector.{Collector, snapshot}

pub record StatMeta : Type 0 where
  pub size : ℕ
  pub inactive : Bool
  pub discovered_by : Str
  pub last_refresh_unix_nano : ℕ

pub record MetricTriplet : Type 0 where
  pub min : ℕ
  pub avg : ℕ
  pub max : ℕ

-- The counts of the loop over the keys.
pub record Totals : Type 0 where
  pub total_size : ℕ
  pub resp_min : ℕ
  pub resp_max : ℕ
  pub resp_count : ℕ
  pub sitemap_discovered : ℕ
  pub sitemap_crawled : ℕ

-- `response`, without the fields that are left out.
pub record Response : Type 0 where
  pub generated_at : ℕ
  pub urls_total : ℕ
  pub responses_size_bytes_total : ℕ
  pub response_size_bytes : MetricTriplet
  pub refresh_duration_ms : MetricTriplet
  pub discovered_urls : ℕ
  pub crawled_urls : ℕ

pub data Reply : Type 0 where
  not_found : Reply
  method_not_allowed : Reply
  unauthorized : Reply
  forbidden : Reply
  answered : Response → Reply

-- What is read of a request.
pub record StatRequest : Type 0 where
  pub method : Str
  pub path : Str
  pub authorization : Str

unfoldable pub to_stat_meta : EntryMeta → StatMeta
to_stat_meta v = record {
  size = v.size;
  inactive = v.inactive;
  discovered_by = v.discovered_by;
  last_refresh_unix_nano = v.last_refresh_unix_nano;
}

abbrev pub millisecond : ℕ
millisecond = 1_000_000

-- `RefreshDurationStatsMillis`, of durations that are not negative.
unfoldable pub refresh_duration_stats_millis : Option Collector → MetricTriplet
refresh_duration_stats_millis none = record { min = 0; avg = 0; max = 0 }
refresh_duration_stats_millis (some stats) = record {
  min = (snapshot stats).min_refresh_dur_ns / millisecond;
  avg = (snapshot stats).avg_refresh_dur_ns / millisecond;
  max = (snapshot stats).max_refresh_dur_ns / millisecond;
}

abbrev pub no_totals : Totals
no_totals = record {
  total_size = 0;
  resp_min = max_uint64;
  resp_max = 0;
  resp_count = 0;
  sitemap_discovered = 0;
  sitemap_crawled = 0;
}

abbrev pub zero_stat : StatMeta
zero_stat = record { size = 0; inactive = false; discovered_by = []; last_refresh_unix_nano = 0 }

unfoldable pub size_of : StatMeta → ℕ
size_of meta = if is_pos meta.size then meta.size else 0

unfoldable pub is_from_sitemap : StatMeta → Bool
is_from_sitemap meta = equal_fold (trim_space meta.discovered_by) (str "sitemap")

-- The body of the loop.
unfoldable pub count_meta : StatMeta → Totals → Totals
count_meta meta t = record {
  total_size = add64 t.total_size (size_of meta);
  resp_min = if ltb (size_of meta) t.resp_min then size_of meta else t.resp_min;
  resp_max = if ltb t.resp_max (size_of meta) then size_of meta else t.resp_max;
  resp_count = suc t.resp_count;
  sitemap_discovered =
      if is_from_sitemap meta then suc t.sitemap_discovered else t.sitemap_discovered;
  sitemap_crawled =
      if is_from_sitemap meta && not meta.inactive
      then suc t.sitemap_crawled
      else t.sitemap_crawled;
}

-- What is known of a key: memory first.
unfoldable pub meta_at : Dict StatMeta → Dict StatMeta → Str → StatMeta
meta_at ram disk key = elim (lookup key ram) [
  | some meta ↦ meta
  | none ↦ elim (lookup key disk) [ some meta ↦ meta | none ↦ zero_stat ]
]

unfoldable pub count_keys : Dict StatMeta → Dict StatMeta → List Str → Totals → Totals
count_keys ram disk [] t = t
count_keys ram disk (k ∷ ks) t = count_keys ram disk ks (count_meta (meta_at ram disk k) t)

unfoldable pub resp_stats : Totals → MetricTriplet
resp_stats t = if t.resp_count == 0 then record { min = 0; avg = 0; max = 0 } else record {
  min = if t.resp_min == max_uint64 then 0 else t.resp_min;
  avg = t.total_size / t.resp_count;
  max = t.resp_max;
}

-- `snapshotTTL`
abbrev pub snapshot_ttl : ℕ
snapshot_ttl = 5 * second

unfoldable pub is_endpoint_path : Str → Bool
is_endpoint_path path = str_eq path (str "/wait0") || str_eq path (str "/wait0/")

-- The snapshot that is kept, with its time: `none` where there is none.
pub record Controller : Type 0 where
  pub authn : Option Authenticator
  pub kept : Option (ℕ × Response)

module _ (p : Platform) where
  unfoldable pub ram_meta : Service p → Dict StatMeta
  ram_meta s = map_values to_stat_meta (Memory.meta_snapshot s.ram)

  unfoldable pub disk_meta_of : Service p → Dict StatMeta
  disk_meta_of s = map_values to_stat_meta (Stored.meta_snapshot p s.disk)

  -- The keys of both, each once.
  unfoldable pub all_keys : Service p → List Str
  all_keys s = unique_from [] (keys (ram_meta s) ++ keys (disk_meta_of s))

  unfoldable pub totals_of : Service p → Totals
  totals_of s = count_keys (ram_meta s) (disk_meta_of s) (all_keys s) no_totals

  unfoldable pub build_snapshot : Option Collector → ℕ → Service p → Response
  build_snapshot stats now s = record {
    generated_at = now;
    urls_total = length (all_keys s);
    responses_size_bytes_total = (totals_of s).total_size;
    response_size_bytes = resp_stats (totals_of s);
    refresh_duration_ms = refresh_duration_stats_millis stats;
    discovered_urls = (totals_of s).sitemap_discovered;
    crawled_urls = (totals_of s).sitemap_crawled;
  }

  -- The snapshot that is kept is given as long as it is younger than `snapshotTTL`.
  unfoldable pub get_snapshot :
      Option Collector → ℕ → Service p → Option (ℕ × Response) → (ℕ × Response) × Response
  get_snapshot stats now s none = ((now, build_snapshot stats now s), build_snapshot stats now s)
  get_snapshot stats now s (some (at, snap)) =
      if slt (sub64 now at) snapshot_ttl
      then ((at, snap), snap)
      else ((now, build_snapshot stats now s), build_snapshot stats now s)

  -- From the actor on.
  unfoldable pub after_auth :
      Option Collector → ℕ → Service p → Controller → Option Principal → Controller × Reply
  after_auth stats now s c none = (c, unauthorized)
  after_auth stats now s c (some actor) =
      let r = get_snapshot stats now s c.kept in
      if authorized_for_scope actor (str "stats:read")
      then (record c { kept = some r.0 }, answered r.1)
      else (c, forbidden)

  unfoldable pub handle :
      Option Collector → ℕ → Service p → StatRequest → Controller → Controller × Reply
  handle stats now s r c =
      if not (is_endpoint_path r.path)
      then (c, not_found)
      else if not (str_eq r.method (str "GET"))
      then (c, method_not_allowed)
      else after_auth stats now s c (authenticate_bearer c.authn r.authorization)

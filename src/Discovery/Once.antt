-- ===== src/Discovery/Once.antt =====
-- internal/wait0/discovery/controller.go, `DiscoverOnce`, over the two caches as
-- internal/wait0/discovery_runtime_adapter.go joins them. A sitemap is read at most once, so what the
-- origin answers is a function of its address. The loop runs on fuel, one unit per round; what its
-- select finds in a round is an argument.
pub mod Ends
pub mod Seeds
mod Tests
use wait.Base.{
  ℕ, suc, zero, ◌+◌, ◌≡◌, Bool, true, false, not, ◌&&◌, ◌||◌, Option, none, some, List, [], ◌∷◌,
  ◌++◌, Str, str, str_eq, member, trim_space, if◌then◌else◌,
}
use wait.Cache.Entry.{Entry}
use wait.Cache.Disk.{Platform, put_later}
use wait.Cache.Ram as Memory
use wait.Cache.Disk as Stored
use wait.Proxy.{Service, Rule, pick_rule}
use wait.Discovery.Sitemap.{
  Web, SitemapDoc, fetch_and_parse_sitemap, normalize_maybe_relative_url, normalize_path_from_loc,
}

pub record Config : Type 0 where
  pub origin : Str
  pub sitemaps : List Str
  pub rules : List Rule

-- What the select of a round finds: nothing, a context that is over, or a service that stops.
pub data Signal : Type 0 where
  quiet : Signal
  cancelled : Signal
  stopping : Signal

-- How a run ends.
pub data Ending : Type 0 where
  read_all : Ending
  was_cancelled : Ending
  was_stopped : Ending
  fetch_failed : Str → Ending

-- The addresses that are not blank, made absolute.
unfoldable pub absolute : Str → List Str → List Str
absolute origin [] = []
absolute origin (sm ∷ sms) =
    let rest = absolute origin sms in
    if str_eq (trim_space sm) []
    then rest
    else normalize_maybe_relative_url origin (trim_space sm) ∷ rest

-- An entry that was not fetched yet.
unfoldable pub seed : ℕ → Entry
seed now = record {
  status = 200;
  header = [];
  body = [];
  stored_at = now;
  hash32 = 0;
  inactive = true;
  discovered_by = str "sitemap";
  revalidated_at = 0;
  revalidated_by = [];
}

unfoldable pub is_active : Option Entry → Bool
is_active none = false
is_active (some ent) = not ent.inactive

unfoldable pub serves : Option Rule → Bool
serves none = false
serves (some r) = not r.bypass

module _ (p : Platform) where
  pub record Discovery : Type 0 where
    pub seen : List Str
    pub queue : List Str
    pub stored : ℕ
    pub ignored : ℕ
    pub service : Service p

  -- `PutDisk` of the adapter.
  unfoldable pub put_disk : Str → Entry → Service p → Service p
  put_disk path ent s = record s { disk = put_later p s.disk path ent }

  -- From the path of a location on. The clock gives the time of each seed by its number.
  unfoldable pub visit_path : Config → (ℕ → ℕ) → Str → Discovery → Discovery
  visit_path cfg clock path d =
      if str_eq path []
      then d
      else if not (serves (pick_rule cfg.rules path))
      then record d { ignored = suc d.ignored }
      else if is_active (Memory.peek d.service.ram path)
      then d
      else if is_active (Stored.peek p d.service.disk path)
      then d
      else record d {
        stored = suc d.stored;
        service = put_disk path (seed (clock d.stored)) d.service;
      }

  unfoldable pub visit_locs : Web → Config → (ℕ → ℕ) → List Str → Discovery → Discovery
  visit_locs web cfg clock [] d = d
  visit_locs web cfg clock (loc ∷ locs) d =
      visit_locs web cfg clock locs (visit_path cfg clock (normalize_path_from_loc web loc) d)

  -- A sitemap that was read: the sitemaps that it names are queued, and then its paths are visited.
  unfoldable pub visit_doc : Web → Config → (ℕ → ℕ) → SitemapDoc → Discovery → Discovery
  visit_doc web cfg clock doc d =
      visit_locs web cfg clock doc.urls
        (record d { queue = d.queue ++ absolute cfg.origin doc.sitemaps })

  -- What the loop does with its queue, which goes on as `rest` says.
  unfoldable pub on_doc :
      Web
      → Config
      → (ℕ → ℕ)
      → Str
      → (Discovery → Option (Ending × Discovery))
      → Discovery
      → Option SitemapDoc
      → Option (Ending × Discovery)
  on_doc web cfg clock url rest d none = some (fetch_failed url, d)
  on_doc web cfg clock url rest d (some doc) = rest (visit_doc web cfg clock doc d)

  unfoldable pub on_url :
      Web
      → Config
      → (ℕ → ℕ)
      → Str
      → (Discovery → Option (Ending × Discovery))
      → Discovery
      → Signal
      → Option (Ending × Discovery)
  on_url web cfg clock url rest d cancelled = some (was_cancelled, d)
  on_url web cfg clock url rest d stopping = some (was_stopped, d)
  on_url web cfg clock url rest d quiet =
      if member url d.seen
      then rest d
      else on_doc web cfg clock url rest (record d { seen = url ∷ d.seen })
          (fetch_and_parse_sitemap web url)

  unfoldable pub discover :
      Web → Config → (ℕ → ℕ) → (ℕ → Signal) → ℕ → Discovery → Option (Ending × Discovery)
  discover web cfg clock signals zero d = none
  discover web cfg clock signals (suc fuel) d = elim d.queue [
    | [] ↦ some (read_all, d)
    | url ∷ queue ↦
        on_url web cfg clock url (λ d'. discover web cfg clock signals fuel d')
          (record d { queue = queue }) (signals fuel)
  ]

  unfoldable pub discover_once :
      Web → Config → (ℕ → ℕ) → (ℕ → Signal) → ℕ → Service p → Option (Ending × Discovery)
  discover_once web cfg clock signals fuel s = discover web cfg clock signals fuel (record {
    seen = [];
    queue = absolute cfg.origin cfg.sitemaps;
    stored = 0;
    ignored = 0;
    service = s;
  })

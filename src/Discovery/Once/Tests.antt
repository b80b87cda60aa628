-- ===== src/Discovery/Once/Tests.antt =====
-- Runs of `DiscoverOnce` of internal/wait0/discovery/controller.go.
use wait.Base.{
  has_suffix, ◌≡◌, refl, true, false, Bool, none, some, [], ◌∷◌, Str, str, str_eq, lookup, member,
  has_prefix, trim_space, trim_left, is_space, is_some, arith,
}
use wait.Cache.Entry.{put_async}
use wait.Cache.Ram.{new_ram}
use wait.Cache.Ram as Memory
use wait.Cache.Disk as Stored
use wait.Cache.Disk.{put_later}
use wait.Proxy.Origin.{to_lower, is_success}
use wait.Proxy.{Rule, matches, pick_rule}
use wait.Proxy.Samples.{empty, fresh}
use wait.Discovery.Sitemap.{
  Web, has_scheme, rooted, normalize_maybe_relative_url, path_of_url, normalize_path_from_loc,
  is_gzip, unzipped, trim_doc, parse_body, parse_response, fetch_and_parse_sitemap,
}
use wait.Discovery.Once.{
  Config, quiet, read_all, absolute, seed, is_active, serves, Discovery, put_disk, visit_path,
  visit_locs, visit_doc, on_doc, on_url, discover, discover_once,
}
use wait.Discovery.Once.Ends.{named_by, nested_of, unread, discover_once-ends}
use wait.Discovery.Once.Seeds.{IsSeeded, discover_once-IsSeeded}

program : Unit {0}
unfolding str_eq lookup member has_prefix trim_space trim_left is_space put_async new_ram
    Memory.peek Stored.peek put_later to_lower is_success matches pick_rule has_scheme rooted
    normalize_maybe_relative_url path_of_url normalize_path_from_loc has_suffix is_gzip unzipped
    trim_doc parse_body parse_response fetch_and_parse_sitemap absolute seed is_active serves
    put_disk visit_path visit_locs visit_doc on_doc on_url discover discover_once named_by nested_of
    unread
program = tt

-- Each sitemap names the same two locations and the second sitemap, which so names itself.
abbrev web : Web
web = record {
  fetch = λ url. some (record { status = 200; body = some [] });
  gunzip = λ body. none;
  unmarshal =
      λ body. some (record { urls = str " b " ∷ str "/bypassed" ∷ []; sitemaps = str "two" ∷ [] });
  parse_path = λ url. none;
}

abbrev rule : Str → Bool → Rule
rule prefix bypass = record {
  matchers = prefix ∷ [];
  bypass = bypass;
  bypass_when_cookies = [];
  expiration = 0;
}

abbrev config : Config
config = record {
  origin = str "o";
  sitemaps = str "/one" ∷ [];
  rules = rule (str "/bypassed") true ∷ rule (str "/") false ∷ [];
}

abbrev result : Discovery empty
result = record {
  seen = str "o/two" ∷ str "o/one" ∷ [];
  queue = [];
  stored = 2;
  ignored = 2;
  service = record fresh {
    disk = record fresh.disk {
      ops =
          record { put_key = str "/b"; put_ent = some (seed 7); del_key = [] }
          ∷ record { put_key = str "/b"; put_ent = some (seed 7); del_key = [] }
          ∷ [];
    };
  };
}

discover_run :
    discover_once empty web config (λ n. 7) (λ n. quiet) 4 fresh ≡ some (read_all, result)
unfolding program
discover_run = refl

discover_once-ends_example :
    is_some (discover_once empty web config (λ n. 7) (λ n. quiet) 4 fresh) ≡ true
unfolding program
discover_once-ends_example =
    discover_once-ends empty web config (λ n. 7) (str "o/one" ∷ str "o/two" ∷ []) (λ n. quiet) 4
      fresh (λ u v here named. ground (arith, named)) (λ v named. ground (arith, named))
      (omega arith)

discover_once-IsSeeded_example : IsSeeded empty web config (λ n. 7) fresh result
unfolding program
discover_once-IsSeeded_example =
    discover_once-IsSeeded empty web config (λ n. 7) fresh (λ n. quiet) 4 read_all result refl

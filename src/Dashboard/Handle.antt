-- ===== src/Dashboard/Handle.antt =====
-- internal/wait0/dashboard/controller.go, `Handle`: the page, and the two requests that it passes on
-- to the endpoints of the statistics and of the invalidation. The two readings of the clock and the
-- random text are arguments.
pub mod Admits
mod Tests
use wait.Base.{
  ℕ, ◌≡◌, Bool, true, false, not, ◌&&◌, ◌||◌, Option, none, some, List, [], ◌∷◌, ◌++◌, Str, str,
  str_eq, member, insert, trim_space, if◌then◌else◌, is_pos,
}
use wait.Cache.Entry.{Header, Bytes}
use wait.Proxy.Origin.{header_get, add_values}
use wait.Dashboard.Limiter.{Limiter, new_limiter, allow, minute}
use wait.Dashboard.Client.{Net, HttpRequest, client_ip, parse_trusted_cidrs}
use wait.Dashboard.Csrf.{request_is_secure, same_origin, valid_csrf_token}

pub record Config : Type 0 where
  pub username : Str
  pub password : Str
  pub stats_bearer_token : Str
  pub invalidation_bearer_token : Str
  pub rate_limit_per_minute : ℕ
  pub trust_proxy_headers : Bool
  pub trusted_proxy_cidrs : List Str

-- What the page is made of, with the attribute `Secure` of its cookie, whose value is the token.
pub record PageData : Type 0 where
  pub invalidation_enabled : Bool
  pub poll_interval_ms : ℕ
  pub csrf_token : Str
  pub secure : Bool

-- The request that `proxyToControl` makes.
pub record UpRequest : Type 0 where
  pub method : Str
  pub path : Str
  pub header : Header
  pub body : Bytes

-- What a request is answered with: an error with its status, the page, or what an endpoint answers
-- to a request that is passed on.
pub data Reply : Type 0 where
  not_found : Reply
  unauthorized : Reply
  failed : ℕ → Str → Reply
  page : PageData → Reply
  asks_stats : UpRequest → Reply
  asks_invalidation : UpRequest → Reply

unfoldable pub endpoint_path : Str
endpoint_path = str "/wait0/dashboard"

unfoldable pub stats_endpoint_path : Str
stats_endpoint_path = str "/wait0/dashboard/stats"

unfoldable pub invalidate_endpoint_path : Str
invalidate_endpoint_path = str "/wait0/dashboard/invalidate"

unfoldable pub is_page_path : Str → Bool
unfolding endpoint_path
is_page_path path = str_eq path endpoint_path || str_eq path (endpoint_path ++ str "/")

unfoldable pub is_endpoint_path : Str → Bool
unfolding is_page_path stats_endpoint_path invalidate_endpoint_path
is_endpoint_path path =
    is_page_path path || str_eq path stats_endpoint_path || str_eq path invalidate_endpoint_path

-- The headers of a request that is passed on: `withContentType` sets a type that is not blank.
unfoldable pub up_header : Str → Str → Header
up_header token content_type =
    let h = insert (str "Authorization") ((str "Bearer " ++ token) ∷ []) [] in
    if str_eq (trim_space content_type) []
    then h
    else insert (str "Content-Type") (content_type ∷ []) h

-- The headers of the reply: `setNoCacheHeaders`, and those that the endpoint answered.
unfoldable pub no_cache_headers : Header
no_cache_headers = insert (str "Expires") (str "0" ∷ []) (
    insert (str "Pragma") (str "no-cache" ∷ [])
      (insert (str "Cache-Control") (str "no-store, max-age=0" ∷ []) []))

unfoldable pub copy_answer : Header → Header → Header
copy_answer h [] = h
copy_answer h ((k, vals) ∷ answer) = copy_answer (add_values h k vals) answer

module _ (net : Net) where
  -- The two handlers are there or are nil.
  pub record Controller : Type 0 where
    pub username : Str
    pub password : Str
    pub stats_token : Str
    pub invalidation_token : Str
    pub has_stats : Bool
    pub has_invalidation : Bool
    pub pre_auth : Option Limiter
    pub post_auth : Option Limiter
    pub trust_proxy : Bool
    pub trusted_proxies : List net.Network

  unfoldable pub new_controller : Config → Bool → Bool → ℕ → Controller
  new_controller cfg has_stats has_invalidation now =
      let rpm = if is_pos cfg.rate_limit_per_minute then cfg.rate_limit_per_minute else 120 in
      record {
        username = trim_space cfg.username;
        password = trim_space cfg.password;
        stats_token = trim_space cfg.stats_bearer_token;
        invalidation_token = trim_space cfg.invalidation_bearer_token;
        has_stats = has_stats;
        has_invalidation = has_invalidation;
        pre_auth = some (new_limiter rpm minute now);
        post_auth = some (new_limiter rpm minute now);
        trust_proxy = cfg.trust_proxy_headers;
        trusted_proxies = parse_trusted_cidrs net cfg.trusted_proxy_cidrs;
      }

  -- The end of `authenticatedPrincipal`, for the name and the password of the request.
  unfoldable pub check_credentials : Controller → Str × Str → Option Str
  check_credentials c (u, p) =
      if not (str_eq u c.username)
      then none
      else if not (str_eq p c.password)
      then none
      else some (trim_space u)

  unfoldable pub authenticated_principal : Controller → HttpRequest → Option Str
  authenticated_principal c r =
      if str_eq (trim_space c.username) [] || str_eq (trim_space c.password) []
      then none
      else (elim r.basic_auth [ none ↦ none | some credentials ↦ check_credentials c credentials ])

  unfoldable pub invalidation_enabled : Controller → Bool
  invalidation_enabled c = not (str_eq (trim_space c.invalidation_token) []) && c.has_invalidation

  -- The key of the second limiter.
  unfoldable pub actor_key : Str → Str → Str
  actor_key ip principal =
      ip
      ++ str "|"
      ++ (if str_eq (trim_space principal) [] then str "unknown" else trim_space principal)

  unfoldable pub serve_page : Controller → Str → HttpRequest → Reply
  serve_page c random r =
      if not (str_eq r.method (str "GET"))
      then failed 405 (str "method not allowed")
      else page (record {
        invalidation_enabled = invalidation_enabled c;
        poll_interval_ms = 5000;
        csrf_token = random;
        secure = request_is_secure r;
      })

  unfoldable pub serve_stats : Controller → HttpRequest → Reply
  serve_stats c r =
      if not (str_eq r.method (str "GET"))
      then failed 405 (str "method not allowed")
      else if str_eq (trim_space c.stats_token) [] || not c.has_stats
      then failed 503 (str "dashboard stats are unavailable")
      else asks_stats (record {
        method = str "GET";
        path = str "/wait0";
        header = up_header c.stats_token [];
        body = [];
      })

  unfoldable pub invalidation_request : Controller → HttpRequest → UpRequest
  invalidation_request c r = record {
    method = str "POST";
    path = str "/wait0/invalidate";
    header = up_header c.invalidation_token (trim_space (header_get r.header (str "Content-Type")));
    body = r.body;
  }

  unfoldable pub serve_invalidation : Controller → HttpRequest → Reply
  serve_invalidation c r =
      if not (str_eq r.method (str "POST"))
      then failed 405 (str "method not allowed")
      else if not (invalidation_enabled c)
      then failed 503 (str "dashboard invalidation is unavailable")
      else if not (same_origin net r)
      then failed 403 (str "csrf origin check failed")
      else if not (valid_csrf_token r)
      then failed 403 (str "csrf token check failed")
      else asks_invalidation (invalidation_request c r)

  -- The switch over the path.
  unfoldable pub serve : Controller → Str → HttpRequest → Reply
  serve c random r =
      if is_page_path r.path
      then serve_page c random r
      else if str_eq r.path stats_endpoint_path
      then serve_stats c r
      else if str_eq r.path invalidate_endpoint_path
      then serve_invalidation c r
      else not_found

  -- From the principal on: the second limiter, and the switch.
  unfoldable pub after_auth : ℕ → Str → HttpRequest → Str → Controller → Controller × Reply
  after_auth now random r principal c =
      let rate =
        allow c.post_auth (actor_key (client_ip net c.trust_proxy c.trusted_proxies r) principal)
          now in
      let c' = record c { post_auth = rate.0 } in
      if rate.1 then (c', serve c' random r) else (c', failed 429 (str "rate limit exceeded"))

  -- From the first limiter on.
  unfoldable pub after_rate : ℕ → Str → HttpRequest → Option Str → Controller → Controller × Reply
  after_rate now random r none c = (c, unauthorized)
  after_rate now random r (some principal) c = after_auth now random r principal c

  unfoldable pub handle : ℕ → ℕ → Str → HttpRequest → Controller → Controller × Reply
  handle now later random r c =
      let rate = allow c.pre_auth (client_ip net c.trust_proxy c.trusted_proxies r) now in
      let c' = record c { pre_auth = rate.0 } in
      if not (is_endpoint_path r.path)
      then (c, not_found)
      else if rate.1
      then after_rate later random r (authenticated_principal c' r) c'
      else (c', failed 429 (str "rate limit exceeded"))

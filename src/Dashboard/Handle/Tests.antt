-- ===== src/Dashboard/Handle/Tests.antt =====
-- Runs of `Handle` of internal/wait0/dashboard/controller.go.
use wait.Base.{
  refl, true, false, Option, none, some, [], ◌∷◌, Str, str, str_eq, lookup, insert, split, split_at,
  trim_space, trim_left, is_space, fold_case, equal_fold,
}
use wait.Proxy.Origin.{header_get, to_lower}
use wait.Dashboard.Limiter.{new_limiter, allow, client_key, roll, take_one}
use wait.Dashboard.Client.{
  Net, HttpRequest, first_part, host_of, parse_remote_ip, is_from_trusted_proxy, forwarded_for,
  direct_ip, client_ip, keep_cidr, parse_trusted_cidrs,
}
use wait.Dashboard.Csrf.{
  request_is_secure, expected_origin, referer_origin, same_origin, valid_csrf_token,
}
use wait.Dashboard.Handle.{
  Config, Controller, UpRequest, is_page_path, is_endpoint_path, endpoint_path, stats_endpoint_path,
  invalidate_endpoint_path, up_header, new_controller, check_credentials, authenticated_principal,
  invalidation_enabled, actor_key, serve_page, serve_stats, invalidation_request,
  serve_invalidation, serve, after_auth, after_rate, handle,
}
use wait.Dashboard.Handle.Admits.{IsAdmitted, handle-IsAdmitted}

program : Unit {0}
unfolding str_eq lookup insert split split_at trim_space trim_left is_space fold_case equal_fold
    header_get to_lower new_limiter allow client_key roll take_one first_part host_of
    parse_remote_ip is_from_trusted_proxy forwarded_for direct_ip client_ip keep_cidr
    parse_trusted_cidrs request_is_secure expected_origin referer_origin same_origin
    valid_csrf_token is_page_path is_endpoint_path endpoint_path stats_endpoint_path
    invalidate_endpoint_path up_header new_controller check_credentials authenticated_principal
    invalidation_enabled actor_key serve_page serve_stats invalidation_request serve_invalidation
    serve after_auth after_rate handle
program = tt

-- Addresses are texts that are not empty, and no network is trusted.
abbrev net : Net
net = record {
  Ip = Str;
  Network = Unit {0};
  parse_ip = λ s. if_full s;
  split_host_port = λ s. some (first_part (split s b':'));
  parse_cidr = λ s. none;
  holds = λ n ip. false;
  parse_url = λ s. none;
}
  where
    if_full : Str → Option Str
    if_full [] = none
    if_full (c ∷ s) = some (c ∷ s)

abbrev config : Config
config = record {
  username = str "ops";
  password = str "pw";
  stats_bearer_token = str "s";
  invalidation_bearer_token = str "t";
  rate_limit_per_minute = 2;
  trust_proxy_headers = false;
  trusted_proxy_cidrs = [];
}

abbrev controller : Controller net
controller = new_controller net config true true 0

abbrev post : HttpRequest
post = record {
  method = str "POST";
  path = str "/wait0/dashboard/invalidate";
  host = str "h";
  remote_addr = str "1.2.3.4:5";
  tls = false;
  header =
      (str "Origin", str "http://h" ∷ [])
      ∷ (str "X-Wait0-Csrf", str "ab" ∷ [])
      ∷ (str "Content-Type", str "application/json" ∷ [])
      ∷ [];
  basic_auth = some (str "ops", str "pw");
  csrf_cookie = some (str "ab");
  body = 1 ∷ [];
}

abbrev asked : UpRequest
asked = record {
  method = str "POST";
  path = str "/wait0/invalidate";
  header =
      (str "Authorization", str "Bearer t" ∷ [])
      ∷ (str "Content-Type", str "application/json" ∷ [])
      ∷ [];
  body = 1 ∷ [];
}

handle-IsAdmitted_example : IsAdmitted net controller post asked
unfolding program
handle-IsAdmitted_example = handle-IsAdmitted net 1 2 (str "r") post controller asked refl

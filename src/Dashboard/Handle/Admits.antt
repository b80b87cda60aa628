-- ===== src/Dashboard/Handle/Admits.antt =====
-- Which requests `Handle` of internal/wait0/dashboard/controller.go passes on to the invalidation.
use wait.Base.{
  ℕ, ◌≡◌, ◌≢◌, ◌∙◌, ◌∷◌, ◌++◌, lookup, insert, if◌then◌else◌, refl, ap, true, false, Option, none,
  some, [], Str, str, str_eq, str_eq_iff, trim_space, inl, inr, Option-cases, arith,
}
use wait.Proxy.Origin.{header_get}
use wait.Dashboard.Limiter.{allow}
use wait.Dashboard.Client.{Net, HttpRequest, client_ip}
use wait.Dashboard.Csrf.{
  same_origin, valid_csrf_token, HasToken, OwnOrigin, IsOwn, same_origin-IsOwn,
}
use wait.Dashboard.Handle.{
  asks_invalidation, UpRequest, up_header, Controller, check_credentials, authenticated_principal,
  invalidation_enabled, serve_page, serve_stats, invalidation_request, serve_invalidation, serve,
  after_auth, after_rate, handle, invalidate_endpoint_path,
}

valid_csrf_token-HasToken : (r : HttpRequest) → valid_csrf_token r ≡ true → HasToken r
unfolding valid_csrf_token
valid_csrf_token-HasToken r h = elim (Option-cases r.csrf_cookie) [
  | inl e ↦ absurd (ground (arith, h, e))
  | inr (value, e) ↦ record {
    cookie = value;
    sent = e;
    full = ground (arith, h, e);
    same = ground (
      arith,
      h,
      e,
      str_eq_iff (trim_space (header_get r.header (str "X-Wait0-Csrf"))) (trim_space value),
    );
  }
]

up_header-authorization :
    (token sent : Str)
    → lookup (str "Authorization") (up_header token sent) ≡ some ((str "Bearer " ++ token) ∷ [])
unfolding up_header insert lookup str_eq
up_header-authorization token sent = ground arith

up_header-content_type :
    (token sent : Str)
    → lookup (str "Content-Type") (up_header token sent)
      ≡ (if str_eq (trim_space sent) [] then none else some (sent ∷ []))
unfolding up_header insert lookup str_eq
up_header-content_type token sent = ground arith

up_header_other :
    (token sent k : Str)
    → k ≢ str "Authorization"
    → k ≢ str "Content-Type"
    → lookup k (up_header token sent) ≡ none
unfolding up_header insert lookup
up_header_other token sent k a b =
    ground (arith, a, b, str_eq_iff (str "Authorization") k, str_eq_iff (str "Content-Type") k)

module _ (net : Net) where
  -- What a request that is passed on to the invalidation has: the path and the method, the name and
  -- the password of the configuration, which are not blank, the origin of the page, and a token in
  -- the header that is that of the cookie. What is sent has the path of the endpoint, its token, the
  -- body, the type of the content, and no other header.
  pub record IsAdmitted (c : Controller net) (r : HttpRequest) (up : UpRequest) : Type 0 where
    pub path : r.path ≡ invalidate_endpoint_path
    pub method : r.method ≡ str "POST"
    pub enabled : invalidation_enabled net c ≡ true
    pub name : str_eq (trim_space c.username) [] ≡ false
    pub password : str_eq (trim_space c.password) [] ≡ false
    pub credentials : r.basic_auth ≡ some (c.username, c.password)
    pub own : Str
    pub page : OwnOrigin r own
    pub origin : IsOwn net r own
    pub token : HasToken r
    pub up_method : up.method ≡ str "POST"
    pub up_path : up.path ≡ str "/wait0/invalidate"
    pub up_body : up.body ≡ r.body
    pub authorization :
        lookup (str "Authorization") up.header ≡ some ((str "Bearer " ++ c.invalidation_token) ∷ [])
    pub content_type : lookup (str "Content-Type") up.header ≡ (
        let sent = trim_space (header_get r.header (str "Content-Type")) in
        if str_eq (trim_space sent) [] then none else some (sent ∷ []))
    pub no_other :
        (k : Str) → k ≢ str "Authorization" → k ≢ str "Content-Type" → lookup k up.header ≡ none

  serve_invalidation-checks :
      (c : Controller net) (r : HttpRequest) (up : UpRequest)
      → serve_invalidation net c r ≡ asks_invalidation up
      → (r.method ≡ str "POST")
        × (invalidation_enabled net c ≡ true)
        × (same_origin net r ≡ true)
        × (valid_csrf_token r ≡ true)
        × (up ≡ invalidation_request net c r)
  unfolding serve_invalidation
  serve_invalidation-checks c r up h = (
    ground (arith, h, str_eq_iff r.method (str "POST")),
    ground (arith, h),
    ground (arith, h),
    ground (arith, h),
    ground (arith, h),
  )

  serve-checks :
      (c : Controller net) (random : Str) (r : HttpRequest) (up : UpRequest)
      → serve net c random r ≡ asks_invalidation up
      → (r.path ≡ invalidate_endpoint_path) × (serve_invalidation net c r ≡ asks_invalidation up)
  unfolding serve serve_page serve_stats
  serve-checks c random r up h =
      (ground (arith, h, str_eq_iff r.path invalidate_endpoint_path), ground (arith, h))

  authenticated_principal-checks :
      (c : Controller net) (r : HttpRequest) (principal : Str)
      → authenticated_principal net c r ≡ some principal
      → (str_eq (trim_space c.username) [] ≡ false)
        × (str_eq (trim_space c.password) [] ≡ false)
        × (r.basic_auth ≡ some (c.username, c.password))
  unfolding authenticated_principal check_credentials
  authenticated_principal-checks c r principal h = elim (Option-cases r.basic_auth) [
    | inl e ↦ absurd (ground (arith, h, e))
    | inr ((u, w), e) ↦ (
      ground (arith, h, e),
      ground (arith, h, e),
      ground (arith, h, e, str_eq_iff u c.username, str_eq_iff w c.password),
    )
  ]

  after_auth-serve :
      (now : ℕ) (random : Str) (r : HttpRequest) (principal : Str) (c : Controller net)
      (up : UpRequest)
      → (after_auth net now random r principal c).1 ≡ asks_invalidation up
      → serve net c random r ≡ asks_invalidation up
  unfolding after_auth serve serve_page serve_stats serve_invalidation invalidation_enabled
      invalidation_request
  after_auth-serve now random r principal c up h = ground (arith, h)

  after_rate-checks :
      (now : ℕ) (random : Str) (r : HttpRequest) (o : Option Str) (c : Controller net)
      (up : UpRequest)
      → (after_rate net now random r o c).1 ≡ asks_invalidation up
      → (principal : Str) × (o ≡ some principal) × (serve net c random r ≡ asks_invalidation up)
  unfolding after_rate
  after_rate-checks now random r none c up h = absurd cc
  after_rate-checks now random r (some principal) c up h =
      (principal, refl, after_auth-serve now random r principal c up h)

  -- A request that the dashboard passes on to the invalidation has passed every check: it is a POST
  -- to the path, with the name and the password of the configuration, from the page's own origin,
  -- with a token in the header that the cookie has too; and the endpoint gets its own token, the
  -- body of the request and no other of its headers than the type of the content.
  pub handle-IsAdmitted :
      (now later : ℕ) (random : Str) (r : HttpRequest) (c : Controller net) (up : UpRequest)
      → (handle net now later random r c).1 ≡ asks_invalidation up
      → IsAdmitted c r up
  unfolding handle authenticated_principal check_credentials invalidation_enabled
      invalidation_request
  handle-IsAdmitted now later random r c up h =
      let rate = allow c.pre_auth (client_ip net c.trust_proxy c.trusted_proxies r) now in
      let c' : Controller net = record c { pre_auth = rate.0 } in
      let passed : (after_rate net later random r (authenticated_principal net c' r) c').1
          ≡ asks_invalidation up =
        ground (arith, h) in
      let (principal, known, served) = after_rate-checks later random r _ c' up passed in
      let (name, password, credentials) = authenticated_principal-checks c' r principal known in
      let (path, asks) = serve-checks c' random r up served in
      let (method, enabled, origin, token, request) = serve_invalidation-checks c' r up asks in
      let (own, own_page, from_own) = same_origin-IsOwn net r origin in
      let sent = trim_space (header_get r.header (str "Content-Type")) in
      record {
        path = path;
        method = method;
        enabled = enabled;
        name = name;
        password = password;
        credentials = credentials;
        own = own;
        page = own_page;
        origin = from_own;
        token = valid_csrf_token-HasToken r token;
        up_method = ap (λ (u : UpRequest). u.method) request;
        up_path = ap (λ (u : UpRequest). u.path) request;
        up_body = ap (λ (u : UpRequest). u.body) request;
        authorization =
            ap (λ (u : UpRequest). lookup (str "Authorization") u.header) request
            ∙ up_header-authorization c.invalidation_token sent;
        content_type =
            ap (λ (u : UpRequest). lookup (str "Content-Type") u.header) request
            ∙ up_header-content_type c.invalidation_token sent;
        no_other = λ k a b.
            ap (λ (u : UpRequest). lookup k u.header) request
            ∙ up_header_other c.invalidation_token sent k a b;
      }

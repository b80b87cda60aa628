-- ===== src/Dashboard/Client.antt =====
-- internal/wait0/dashboard/controller.go: what is read of a request, and the address of its client.
use wait.Base.{
  ◌≡◌, Bool, false, ◌&&◌, Option, none, some, List, [], ◌∷◌, Str, str, str_eq, split, trim_space,
  any, if◌then◌else◌, is_some,
}
use wait.Cache.Entry.{Header, Bytes}
use wait.Proxy.Origin.{header_get}

-- What is used of the packages net and net/url: `net.SplitHostPort` gives the host, `url.Parse` the
-- scheme and the host, and an error is `none`, as is the nil of `net.ParseIP`.
pub record Net : Type 1 where
  pub Ip : Type 0
  pub Network : Type 0
  pub parse_ip : Str → Option Ip
  pub split_host_port : Str → Option Str
  pub parse_cidr : Str → Option Network
  pub holds : Network → Ip → Bool
  pub parse_url : Str → Option (Str × Str)

-- A request: the names of its headers are in canonical form, `basic_auth` is what `BasicAuth` gives,
-- and `csrf_cookie` the value of the cookie `wait0_dashboard_csrf`.
pub record HttpRequest : Type 0 where
  pub method : Str
  pub path : Str
  pub host : Str
  pub remote_addr : Str
  pub tls : Bool
  pub header : Header
  pub basic_auth : Option (Str × Str)
  pub csrf_cookie : Option Str
  pub body : Bytes

-- The first part of a text at its commas, without the spaces around it.
unfoldable pub first_part : List Str → Str
first_part [] = []
first_part (part ∷ parts) = trim_space part

module _ (net : Net) where
  -- The end of `parseTrustedCIDRs` for one text.
  unfoldable pub keep_cidr : Option net.Network → List net.Network → List net.Network
  keep_cidr none out = out
  keep_cidr (some n) out = n ∷ out

  unfoldable pub parse_trusted_cidrs : List Str → List net.Network
  parse_trusted_cidrs [] = []
  parse_trusted_cidrs (raw ∷ values) =
      let out = parse_trusted_cidrs values in
      let kept = keep_cidr (net.parse_cidr (trim_space raw)) out in
      if str_eq (trim_space raw) [] then out else kept

  -- The host of an address, which need not have a port.
  unfoldable pub host_of : Str → Str
  host_of remote_addr = elim (net.split_host_port (trim_space remote_addr)) [
    | none ↦ trim_space (trim_space remote_addr)
    | some host ↦ trim_space host
  ]

  unfoldable pub parse_remote_ip : Str → Option net.Ip
  parse_remote_ip remote_addr =
      if str_eq (host_of remote_addr) [] then none else net.parse_ip (host_of remote_addr)

  unfoldable pub is_from_trusted_proxy : List net.Network → HttpRequest → Bool
  is_from_trusted_proxy proxies r = elim (parse_remote_ip r.remote_addr) [
    | none ↦ false
    | some ip ↦ any (λ cidr. net.holds cidr ip) proxies
  ]

  -- The address that a trusted proxy names.
  unfoldable pub forwarded_for : HttpRequest → Option Str
  forwarded_for r =
      let xff = trim_space (header_get r.header (str "X-Forwarded-For")) in
      let candidate = first_part (split xff b',') in
      if str_eq xff []
      then none
      else if is_some (net.parse_ip candidate)
      then some candidate
      else none

  unfoldable pub direct_ip : HttpRequest → Str
  direct_ip r =
      let host = host_of r.remote_addr in
      if is_some (net.parse_ip host) then host else if str_eq host [] then str "unknown" else host

  unfoldable pub client_ip : Bool → List net.Network → HttpRequest → Str
  client_ip trust proxies r =
      if trust && is_from_trusted_proxy proxies r
      then (elim (forwarded_for r) [ none ↦ direct_ip r | some ip ↦ ip ])
      else direct_ip r

  -- The limiter's key does not depend on headers that the client can choose, unless the request
  -- comes from a network that the configuration trusts.
  pub client_ip-untrusted :
      (trust : Bool) (proxies : List net.Network) (r : HttpRequest) (h : Header)
      → (trust && is_from_trusted_proxy proxies r) ≡ false
      → client_ip trust proxies (record r { header = h }) ≡ client_ip trust proxies r
  unfolding client_ip is_from_trusted_proxy direct_ip
  client_ip-untrusted trust proxies r h e = simp (e, client_ip)

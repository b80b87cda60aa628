-- ===== src/Dashboard/Csrf.antt =====
-- internal/wait0/dashboard/controller.go: the tests that keep a foreign page from posting. The hosts
-- of headers are ASCII.
use wait.Base.{
  ◌≡◌, ◌≢◌, ◌⊎◌, refl, ap, inl, inr, Bool-cases, str_eq_iff, arith, Bool, true, false, not, Option,
  none, some, [], ◌∷◌, ◌++◌, Str, str, str_eq, split, split_at, trim_space, equal_fold,
  if◌then◌else◌,
}
use wait.Proxy.Origin.{header_get, to_lower}
use wait.Dashboard.Client.{Net, HttpRequest, first_part}

unfoldable pub request_is_secure : HttpRequest → Bool
request_is_secure r =
    let xf = trim_space (header_get r.header (str "X-Forwarded-Proto")) in
    if r.tls
    then true
    else if str_eq xf []
    then false
    else equal_fold (first_part (split xf b',')) (str "https")

unfoldable pub expected_origin : HttpRequest → Str
expected_origin r =
    (if request_is_secure r then str "https" else str "http") ++ str "://" ++ trim_space r.host

-- The origin that the header Referer names, as `url.Parse` reads it.
unfoldable pub referer_origin : Option (Str × Str) → Option Str
referer_origin none = none
referer_origin (some (scheme, host)) =
    if str_eq (trim_space host) []
    then none
    else if str_eq (trim_space scheme) []
    then none
    else some (to_lower (trim_space scheme) ++ str "://" ++ trim_space host)

unfoldable pub same_origin : Net → HttpRequest → Bool
same_origin net r =
    let want = trim_space (expected_origin r) in
    let origin = trim_space (header_get r.header (str "Origin")) in
    let ref = trim_space (header_get r.header (str "Referer")) in
    if str_eq want []
    then false
    else if not (str_eq origin [])
    then equal_fold origin want
    else if str_eq ref []
    then false
    else (elim (referer_origin (net.parse_url ref)) [
      | none ↦ false
      | some got ↦ equal_fold got want
    ])

unfoldable pub valid_csrf_token : HttpRequest → Bool
valid_csrf_token r =
    let header_token = trim_space (header_get r.header (str "X-Wait0-Csrf")) in
    if str_eq header_token [] then false else (elim r.csrf_cookie [
      | none ↦ false
      | some value ↦
          if str_eq (trim_space value) [] then false else str_eq header_token (trim_space value)
    ])

-- The origin of the page: its host, with https where the connection or the proxy in front of it is
-- encrypted.
abbrev pub OwnOrigin : HttpRequest → Str → Type 0
OwnOrigin r own =
    ((own ≡ trim_space (str "https://" ++ trim_space r.host))
      × ((r.tls ≡ true)
          ⊎ (equal_fold
                (first_part
                  (split (trim_space (header_get r.header (str "X-Forwarded-Proto"))) b','))
                (str "https")
              ≡ true)))
    ⊎ ((own ≡ trim_space (str "http://" ++ trim_space r.host))
        × (r.tls ≡ false)
        × (equal_fold
              (first_part (split (trim_space (header_get r.header (str "X-Forwarded-Proto"))) b','))
              (str "https")
            ≡ false))

-- The header Origin names the page's own origin, or, where that header is blank, the header Referer,
-- which is not blank, is an address of that origin.
pub data IsOwn (net : Net) (r : HttpRequest) (own : Str) : Type 0 where
  by_origin :
      trim_space (header_get r.header (str "Origin")) ≢ []
      → equal_fold (trim_space (header_get r.header (str "Origin"))) own ≡ true
      → IsOwn net r own
  by_referer :
      (scheme host : Str)
      → trim_space (header_get r.header (str "Origin")) ≡ []
      → trim_space (header_get r.header (str "Referer")) ≢ []
      → net.parse_url (trim_space (header_get r.header (str "Referer"))) ≡ some (scheme, host)
      → trim_space scheme ≢ []
      → trim_space host ≢ []
      → equal_fold (to_lower (trim_space scheme) ++ str "://" ++ trim_space host) own ≡ true
      → IsOwn net r own

not_https :
    (xf : Str)
    → (if str_eq xf [] then false else equal_fold (first_part (split xf b',')) (str "https"))
      ≡ false
    → equal_fold (first_part (split xf b',')) (str "https") ≡ false
unfolding str_eq split split_at first_part equal_fold trim_space
not_https [] e = refl
not_https (c ∷ s) e = e

expected_origin-OwnOrigin : (r : HttpRequest) → OwnOrigin r (trim_space (expected_origin r))
unfolding expected_origin request_is_secure
expected_origin-OwnOrigin r = elim (Bool-cases (request_is_secure r)) [
  | inl e ↦ inl (
    ap (λ b. trim_space ((if b then str "https" else str "http") ++ str "://" ++ trim_space r.host))
        e,
    (elim (Bool-cases r.tls) [ inl t ↦ inl t | inr f ↦ inr (ground (arith, e, f)) ]),
  )
  | inr e ↦ inr (
    ap (λ b. trim_space ((if b then str "https" else str "http") ++ str "://" ++ trim_space r.host))
        e,
    ground (arith, e),
    not_https (trim_space (header_get r.header (str "X-Forwarded-Proto"))) (ground (arith, e)),
  )
]

filled : (s : Str) → str_eq s [] ≡ false → s ≢ []
filled s e = λ empty. absurd (ground (arith, e, str_eq_iff s [], empty))

by_parsed :
    (net : Net) (r : HttpRequest) (own : Str) (o : Option (Str × Str))
    → trim_space (header_get r.header (str "Origin")) ≡ []
    → trim_space (header_get r.header (str "Referer")) ≢ []
    → net.parse_url (trim_space (header_get r.header (str "Referer"))) ≡ o
    → (elim (referer_origin o) as (λ x. Bool) [ none ↦ false | some got ↦ equal_fold got own ])
      ≡ true
    → IsOwn net r own
unfolding referer_origin
by_parsed net r own none blank ref e h = absurd cc
by_parsed net r own (some (scheme, host)) blank ref e h =
    elim (Bool-cases (str_eq (trim_space host) [])) [
      | inl no_host ↦ absurd (ground (arith, no_host, h))
      | inr has_host ↦ elim (Bool-cases (str_eq (trim_space scheme) [])) [
        | inl no_scheme ↦ absurd (ground (arith, has_host, no_scheme, h))
        | inr has_scheme ↦
            by_referer scheme host blank ref e (filled (trim_space scheme) has_scheme)
              (filled (trim_space host) has_host) (ground (arith, has_host, has_scheme, h))
      ]
    ]

pub same_origin-IsOwn :
    (net : Net) (r : HttpRequest)
    → same_origin net r ≡ true
    → (own : Str) × OwnOrigin r own × IsOwn net r own
unfolding same_origin
same_origin-IsOwn net r h =
    let own = trim_space (expected_origin r) in
    let origin = trim_space (header_get r.header (str "Origin")) in
    let ref = trim_space (header_get r.header (str "Referer")) in
    (
      own,
      expected_origin-OwnOrigin r,
      elim (Bool-cases (str_eq own [])) [
        | inl no_host ↦ absurd (let h' = simp (no_host, same_origin) at h in cc)
        | inr host ↦ elim (Bool-cases (str_eq origin [])) [
          | inr sent ↦ by_origin (filled origin sent) (simp (host, sent, same_origin) at h)
          | inl blank ↦ elim (Bool-cases (str_eq ref [])) [
            | inl no_ref ↦ absurd (let h' = simp (host, blank, no_ref, same_origin) at h in cc)
            | inr has_ref ↦
                by_parsed net r own (net.parse_url ref) ((str_eq_iff origin []).0 blank)
                  (filled ref has_ref) refl (simp (host, blank, has_ref, same_origin) at h)
          ]
        ]
      ],
    )

-- A token that passes: the cookie and the header have it, and it is not blank.
pub record HasToken (r : HttpRequest) : Type 0 where
  pub cookie : Str
  pub sent : r.csrf_cookie ≡ some cookie
  pub full : str_eq (trim_space cookie) [] ≡ false
  pub same : trim_space (header_get r.header (str "X-Wait0-Csrf")) ≡ trim_space cookie

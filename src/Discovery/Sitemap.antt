-- ===== src/Discovery/Sitemap.antt =====
-- internal/wait0/discovery/controller.go: the addresses of the sitemaps, their contents, and the
-- paths that they name.
use wait.Base.{
  ℕ, ◌≡◌, refl, Bool, true, false, not, ◌&&◌, ◌||◌, ◌⊎◌, inl, inr, Option, none, some, List, [],
  ◌∷◌, ◌++◌, Str, str, str_eq, has_prefix, has_suffix, trim_space, map, if◌then◌else◌, ◌==◌,
  Bool-cases, arith,
}
use wait.Cache.Entry.{Bytes}
use wait.Proxy.Origin.{to_lower, is_success}

pub record SitemapDoc : Type 0 where
  pub urls : List Str
  pub sitemaps : List Str

-- A response, with what the reading of its body gives.
pub record WebResponse : Type 0 where
  pub status : ℕ
  pub body : Option Bytes

-- The HTTP client with the making of its request, gzip, the XML decoder, and the field Path of what
-- `url.Parse` gives. An error is `none`.
pub record Web : Type 0 where
  pub fetch : Str → Option WebResponse
  pub gunzip : Bytes → Option Bytes
  pub unmarshal : Bytes → Option SitemapDoc
  pub parse_path : Str → Option Str

unfoldable pub has_scheme : Str → Bool
has_scheme s = has_prefix s (str "http://") || has_prefix s (str "https://")

unfoldable pub rooted : Str → Str
rooted s = if not (has_prefix s (str "/")) then str "/" ++ s else s

unfoldable pub normalize_maybe_relative_url : Str → Str → Str
normalize_maybe_relative_url origin u =
    if str_eq (trim_space u) []
    then trim_space u
    else if has_scheme (trim_space u)
    then trim_space u
    else origin ++ rooted (trim_space u)

-- The path of an address with a scheme.
unfoldable pub path_of_url : Option Str → Str
path_of_url none = []
path_of_url (some path) = if str_eq path [] then str "/" else rooted path

unfoldable pub normalize_path_from_loc : Web → Str → Str
normalize_path_from_loc web loc =
    if str_eq (trim_space loc) []
    then []
    else if has_scheme (trim_space loc)
    then path_of_url (web.parse_path (trim_space loc))
    else rooted (trim_space loc)

unfoldable pub is_gzip : Bytes → Bool
is_gzip (a ∷ b ∷ body) = a == 0x1f && b == 0x8b
is_gzip _ = false

-- A body that does not decompress is left as it is.
unfoldable pub unzipped : Web → Str → Bytes → Bytes
unzipped web url body =
    if has_suffix (to_lower url) (str ".gz") || is_gzip body
    then (elim (web.gunzip body) [ none ↦ body | some plain ↦ plain ])
    else body

unfoldable pub trim_doc : SitemapDoc → SitemapDoc
trim_doc doc = record { urls = map trim_space doc.urls; sitemaps = map trim_space doc.sitemaps }

unfoldable pub parse_body : Web → Str → Option Bytes → Option SitemapDoc
parse_body web url none = none
parse_body web url (some body) = elim (web.unmarshal (unzipped web url body)) [
  | none ↦ none
  | some doc ↦ some (trim_doc doc)
]

unfoldable pub parse_response : Web → Str → Option WebResponse → Option SitemapDoc
parse_response web url none = none
parse_response web url (some resp) =
    if not (is_success resp.status) then none else parse_body web url resp.body

-- `FetchAndParseSitemap`; an error is `none`.
unfoldable pub fetch_and_parse_sitemap : Web → Str → Option SitemapDoc
fetch_and_parse_sitemap web url = parse_response web url (web.fetch url)

rooted-has_prefix : (s : Str) → has_prefix (rooted s) (str "/") ≡ true
unfolding rooted has_prefix
rooted-has_prefix [] = refl
rooted-has_prefix (c ∷ s) = ground arith

path_of_url-rooted :
    (o : Option Str) → (path_of_url o ≡ []) ⊎ (has_prefix (path_of_url o) (str "/") ≡ true)
unfolding path_of_url rooted has_prefix
path_of_url-rooted none = inl refl
path_of_url-rooted (some path) = elim (Bool-cases (str_eq path [])) [
  | inl e ↦ inr (simp (e, path_of_url) (rooted-has_prefix []))
  | inr e ↦ inr (simp (e, path_of_url) (rooted-has_prefix path))
]

-- What a location of a sitemap is turned into is empty, or starts with a slash.
pub normalize_path_from_loc-rooted :
    (web : Web) (loc : Str)
    → (normalize_path_from_loc web loc ≡ [])
      ⊎ (has_prefix (normalize_path_from_loc web loc) (str "/") ≡ true)
unfolding normalize_path_from_loc
normalize_path_from_loc-rooted web loc = elim (Bool-cases (str_eq (trim_space loc) [])) [
  | inl e ↦ inl (simp (e, normalize_path_from_loc) refl)
  | inr e ↦ elim (Bool-cases (has_scheme (trim_space loc))) [
    | inl f ↦
        simp (e, f, normalize_path_from_loc) (path_of_url-rooted (web.parse_path (trim_space loc)))
    | inr f ↦ inr (simp (e, f, normalize_path_from_loc) (rooted-has_prefix (trim_space loc)))
  ]
]

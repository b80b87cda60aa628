-- ===== src/Proxy/Origin.antt =====
-- internal/wait0/proxy/origin.go: a request to the origin and the entry that its response makes.
use wait.Base.{
  ℕ, ◌+◌, Bool, false, not, ◌&&◌, ◌||◌, Option, none, some, List, [], ◌∷◌, ◌++◌, Str, str, lookup,
  insert, delete, has_prefix, equal_fold, if◌then◌else◌, leb, slt, map,
}
use wait.Cache.Entry.{Entry, Header, Bytes}

pub record Request : Type 0 where
  pub method : Str
  pub path : Str
  pub raw_query : Str
  pub request_uri : Str
  pub header : Header
  pub cookies : List Str

pub record Response : Type 0 where
  pub status : ℕ
  pub header : Header
  pub body : Bytes

-- The HTTP client with the reading of the body, which fail or give a response, and `crc32`.
pub record Client : Type 0 where
  pub origin : Str
  pub do_get : Str → Header → Option Response
  pub checksum : Bytes → ℕ

pub record Fetched : Type 0 where
  pub ent : Entry
  pub cacheable : Bool
  pub status_kind : Str

-- `Header.Get`, `Header.Add` and `Header.Set` at a name in canonical form, as net/http reads them.
unfoldable pub header_get : Header → Str → Str
header_get h name = elim (lookup name h) [
  | none ↦ []
  | some vs ↦ elim vs [ [] ↦ [] | v ∷ rest ↦ v ]
]

-- `Header.Values`, for a name in its canonical form.
unfoldable pub header_values : Header → Str → List Str
header_values h name = elim (lookup name h) [ none ↦ [] | some vs ↦ vs ]

unfoldable pub header_add : Header → Str → Str → Header
header_add h name v = elim (lookup name h) [
  | none ↦ insert name (v ∷ []) h
  | some vs ↦ insert name (vs ++ v ∷ []) h
]

unfoldable pub add_values : Header → Str → List Str → Header
add_values h name [] = h
add_values h name (v ∷ vs) = add_values (header_add h name v) name vs

unfoldable pub copy_headers : Header → Header → Header
copy_headers dst [] = dst
copy_headers dst ((k, vs) ∷ src) =
    let skip = copy_headers dst src in
    let copied = copy_headers (add_values dst k vs) src in
    if equal_fold k (str "Host") then skip else copied

-- `strings.ToLower`, on ASCII.
unfoldable pub to_lower : Str → Str
to_lower s = map (λ c. if leb b'A' c && leb c b'Z' then c + 32 else c) s

-- `strings.Contains`
unfoldable pub contains : Str → Str → Bool
contains [] t = has_prefix [] t
contains (c ∷ s) t = let rest = contains s t in has_prefix (c ∷ s) t || rest

-- A Cache-Control that keeps the response out of the caches.
unfoldable pub forbids_caching : Header → Bool
forbids_caching h =
    let cc = to_lower (header_get h (str "Cache-Control")) in
    contains cc (str "no-store") || contains cc (str "no-cache")

unfoldable pub is_success : ℕ → Bool
is_success status = not (slt status 200) && slt status 300

unfoldable pub entry_of : Client → Response → ℕ → ℕ → Entry
entry_of client resp now now_nano = record {
  status = resp.status;
  header = delete (str "Content-Length") resp.header;
  body = resp.body;
  stored_at = now;
  hash32 = client.checksum resp.body;
  inactive = false;
  discovered_by = str "user";
  revalidated_at = now_nano;
  revalidated_by = str "user";
}

-- From the response on; `none` is an error.
unfoldable pub fetched_of : Client → Option Response → ℕ → ℕ → Option Fetched
fetched_of client none now now_nano = none
fetched_of client (some resp) now now_nano =
    let ent = entry_of client resp now now_nano in
    if not (is_success resp.status)
    then some (record { ent = ent; cacheable = false; status_kind = str "ignore-by-status" })
    else some (record {
      ent = ent;
      cacheable = not (forbids_caching resp.header);
      status_kind = str "ok";
    })

unfoldable pub fetch_from_origin : Client → Request → ℕ → ℕ → Option Fetched
fetch_from_origin client r now now_nano =
    let header = insert (str "Accept-Encoding") (str "identity" ∷ []) (copy_headers [] r.header) in
    fetched_of client (client.do_get (client.origin ++ r.request_uri) header) now now_nano

-- ===== src/Proxy/Headers/Kept.antt =====
-- The headers of a reply of internal/wait0/proxy/headers.go that are kept, and the header X-Wait0.
use wait.Base.{
  ◌≡◌, ◌≢◌, List, [], ◌∷◌, ◌++◌, Str, str, str_eq, lookup, lookup-insert_ne, trim_space,
  if◌then◌else◌, arith,
}
use wait.Cache.Entry.{Entry, Header}
use wait.Proxy.Origin.{header_values}
use wait.Proxy.Headers.{expose, expose_beside, ensure_exposed_header, join}

-- Other headers than the list of the exposed ones are left as they are.
pub lookup-ensure_exposed_header :
    (h : Header) (name k : Str) → expose ≢ k → lookup k (ensure_exposed_header h name) ≡ lookup k h
unfolding ensure_exposed_header expose_beside
lookup-ensure_exposed_header h name k ne = go (header_values h expose)
  where
    go :
        (vs : List Str)
        → lookup k (if str_eq name [] then h else expose_beside h name vs) ≡ lookup k h
    go [] = ground (arith, lookup-insert_ne expose k (name ∷ []) h ne)
    go (v ∷ vs) = ground (
      arith,
      lookup-insert_ne expose k ((trim_space (join (v ∷ vs)) ++ str ", " ++ name) ∷ []) h ne,
    )

-- ===== src/Proxy/Headers.antt =====
-- internal/wait0/proxy/headers.go: the headers of a reply. The names of all headers are in canonical
-- form, and `time.Format` is an argument.
pub mod Kept
pub mod Exposed
mod Tests
use wait.Base.{
  ℕ, ◌≡◌, ◌≢◌, sym, Option-cases, refl, ap, ◌∙◌, ◌*◌, ◌%◌, Bool, true, false, not, ◌&&◌, ◌||◌,
  Option, none, some, List, [], ◌∷◌, ◌++◌, Str, str, str_eq, lookup, insert, lookup-insert,
  lookup-insert_ne, lookup-insert_self, equal_fold, fold_case, split, trim_space, any,
  if◌then◌else◌, ◌==◌, length, two64, Bool-cases, inl, inr, arith,
}
use wait.Cache.Entry.{Entry, Header}
use wait.Proxy.Origin.{header_values, header_add, add_values}

-- `strings.Join` with a comma.
unfoldable pub join : List Str → Str
join [] = []
join (s ∷ []) = s
join (s ∷ t ∷ ss) = s ++ str "," ++ join (t ∷ ss)

abbrev pub expose : Str
expose = str "Access-Control-Expose-Headers"

-- The loop over the parts of the joined values.
unfoldable pub lists : Str → Str → Bool
lists merged name = any (λ part. equal_fold (trim_space part) name) (split merged b',')

-- The end of `ensureExposedHeader`, for the values that are there.
unfoldable pub expose_beside : Header → Str → List Str → Header
expose_beside h name [] = insert expose (name ∷ []) h
expose_beside h name (v ∷ vs) =
    let merged = join (v ∷ vs) in
    if lists merged name then h else insert expose ((trim_space merged ++ str ", " ++ name) ∷ []) h

unfoldable pub ensure_exposed_header : Header → Str → Header
ensure_exposed_header h name =
    if str_eq name [] then h else expose_beside h name (header_values h expose)

unfoldable pub set_wait0_headers : Header → Str → Header
set_wait0_headers h wait0 =
    ensure_exposed_header (if str_eq wait0 [] then h else insert (str "X-Wait0") (wait0 ∷ []) h)
      (str "X-Wait0")

-- When the entry was validated: an entry without that time has the one when it was stored.
unfoldable pub revalidated_ts : Entry → ℕ
revalidated_ts ent =
    if ent.revalidated_at == 0 && not (ent.stored_at == 0)
    then ent.stored_at * 1_000_000_000 % two64
    else ent.revalidated_at

unfoldable pub revalidated_by_text : Entry → Str
revalidated_by_text ent =
    if str_eq (trim_space ent.revalidated_by) [] then str "user" else trim_space ent.revalidated_by

unfoldable pub set_wait0_revalidated_headers : (ℕ → Str) → Header → Entry → Header
set_wait0_revalidated_headers format h ent =
    let at = str "X-Wait0-Revalidated-At" in
    let by = str "X-Wait0-Revalidated-By" in
    let h' =
      insert by (revalidated_by_text ent ∷ []) (insert at (format (revalidated_ts ent) ∷ []) h) in
    if revalidated_ts ent == 0 then h else ensure_exposed_header (ensure_exposed_header h' at) by

unfoldable pub set_wait0_discovered_headers : Header → Entry → Header
set_wait0_discovered_headers h ent =
    let name = str "X-Wait0-Discovered-By" in
    let v = trim_space ent.discovered_by in
    if str_eq v [] then h else ensure_exposed_header (insert name (v ∷ []) h) name

-- The headers of the entry, without those that only wait0 sets.
unfoldable pub add_entry_headers : Header → Header → Header
add_entry_headers h [] = h
add_entry_headers h ((k, vs) ∷ src) =
    let skip = add_entry_headers h src in
    let added = add_entry_headers (add_values h k vs) src in
    if equal_fold k (str "x-wait0") then skip else added

-- The headers that `WriteEntry` sends; it sends the status and the body of the entry as they are.
unfoldable pub write_entry : (ℕ → Str) → Header → Entry → Str → Header
write_entry format h ent wait0 =
    let h' =
      set_wait0_discovered_headers (set_wait0_headers (add_entry_headers h ent.header) wait0) ent in
    if str_eq wait0 (str "hit") then set_wait0_revalidated_headers format h' ent else h'

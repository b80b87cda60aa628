-- ===== src/Revalidation/Once.antt =====
-- internal/wait0/revalidation/controller.go, `Once`, over the two caches as
-- internal/wait0/revalidation_runtime_adapter.go joins them: the refresh of one key.
pub mod Agrees
mod Tests
use wait.Base.{
  ℕ, ◌≡◌, Bool, true, false, not, Option, none, some, List, [], ◌∷◌, ◌++◌, Str, str, str_eq,
  trim_space, insert, delete, if◌then◌else◌, ◌==◌, is_some,
}
use wait.Cache.Entry.{Entry, Header}
use wait.Cache.Disk.{Platform}
use wait.Cache.Ram as Memory
use wait.Cache.Disk as Stored
use wait.Proxy.Origin.{Response, forbids_caching, is_success}
use wait.Proxy.{Service, Settings, Times, store, delete_everywhere}
use wait.Revalidation.Warmup.{Result}

-- What one refresh is given: the key, the path and the query, by whom, the texts of the two markers
-- where they are sent, how long it takes, and the text of an error.
pub record Task : Type 0 where
  pub key : Str
  pub path : Str
  pub query : Str
  pub by : Str
  pub markers : Option (Str × Str)
  pub dur : ℕ
  pub err : Str

unfoldable pub uri_of : Task → Str
uri_of k = if str_eq k.query [] then k.path else k.path ++ str "?" ++ k.query

unfoldable pub request_header : Option (Str × Str) → Header
request_header none = insert (str "Accept-Encoding") (str "identity" ∷ []) []
request_header (some (at, entropy)) = insert (str "Accept-Encoding") (str "identity" ∷ []) (
    insert (str "X-Wait0-Revalidate-Entropy") (entropy ∷ [])
      (insert (str "X-Wait0-Revalidate-At") (at ∷ []) []))

-- By whom the entry was discovered.
unfoldable pub discovered_by_of : Option Entry → Str
discovered_by_of none = str "user"
discovered_by_of (some cur) =
    if str_eq (trim_space cur.discovered_by) [] then str "user" else trim_space cur.discovered_by

unfoldable pub result_of : Task → Bool → Bool → Str → Result
result_of k ok changed kind = record {
  ok = ok;
  changed = changed;
  dur = k.dur;
  uri = uri_of k;
  path = k.path;
  kind = kind;
  err = if ok then [] else k.err;
}

unfoldable pub new_entry : Settings → Times → Task → Option Entry → Response → Entry
new_entry cfg t k cur resp = record {
  status = resp.status;
  header = delete (str "Content-Length") resp.header;
  body = resp.body;
  stored_at = t.fetched;
  hash32 = cfg.client.checksum resp.body;
  inactive = false;
  discovered_by = discovered_by_of cur;
  revalidated_at = t.fetched_nano;
  revalidated_by = k.by;
}

-- `hasCur && cur.Hash32 == newEnt.Hash32`
unfoldable pub same_hash : Option Entry → Entry → Bool
same_hash none ent = false
same_hash (some cur) ent = cur.hash32 == ent.hash32

module _ (p : Platform) where
  -- `Peek` of the adapter: memory first.
  unfoldable pub peek_either : Str → Service p → Option Entry
  peek_either key s = elim (Memory.peek s.ram key) [
    | none ↦ Stored.peek p s.disk key
    | some ent ↦ some ent
  ]

  -- A response that may not be kept: the entry that was there is deleted.
  unfoldable pub drop_current : Task → Option Entry → Str → Service p → Service p × Result
  drop_current k none kind s = (s, result_of k true false kind)
  drop_current k (some cur) kind s =
      (delete_everywhere p k.key s, result_of k true true (str "deleted"))

  unfoldable pub keep_new :
      Settings → Times → Task → Option Entry → Entry → Service p → Service p × Result
  keep_new cfg t k cur ent s = (
    store p cfg t k.key ent s,
    if same_hash cur ent
        then result_of k true false (str "unchanged")
        else result_of k true true (str "updated"),
  )

  -- From the response on.
  unfoldable pub on_response :
      Settings → Times → Task → Option Entry → Option Response → Service p → Service p × Result
  on_response cfg t k cur none s = (s, result_of k false false (str "error"))
  on_response cfg t k cur (some resp) s =
      if not (is_success resp.status)
      then drop_current k cur (str "ignored-status") s
      else if forbids_caching resp.header
      then drop_current k cur (str "ignored-cache-control") s
      else keep_new cfg t k cur (new_entry cfg t k cur resp) s

  unfoldable pub once : Settings → Times → Task → Service p → Service p × Result
  once cfg t k s =
      on_response cfg t k (peek_either k.key s)
        (cfg.client.do_get (cfg.client.origin ++ uri_of k) (request_header k.markers)) s

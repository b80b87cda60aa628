-- ===== src/Proxy.antt =====
-- internal/wait0/proxy and internal/wait0/proxy_runtime_adapter.go: a request is answered from the
-- cache in memory, from the cache on disk, or by the origin.
pub mod Origin
pub mod Store
pub mod Valid
pub mod Hit
pub mod Peeked
pub mod Headers
pub mod Samples
mod Tests
use wait.Base.{
  ℕ, ◌≡◌, suc, ◌+◌, Bool, true, false, not, ◌&&◌, ◌||◌, Option, none, some, List, [], ◌∷◌, ◌++◌,
  Str, str, str_eq, member, trim_space, has_prefix, if◌then◌else◌, any, length, slt, is_pos, two64,
  ◌%◌,
}
use wait.Cache.Entry.{Entry, Sink, Queue}
use wait.Cache.Ram.{Ram, Eviction, delete_key, put}
use wait.Cache.Disk.{Platform, Disk, put_later, delete_later}
use wait.Proxy.Origin.{Client, Fetched, Request, fetch_from_origin}
use wait.Cache.Ram as Memory
use wait.Cache.Disk as Stored

-- What the proxy reads of a rule of the configuration (internal/wait0/config.go).
pub record Rule : Type 0 where
  pub matchers : List Str
  pub bypass : Bool
  pub bypass_when_cookies : List Str
  pub expiration : ℕ

unfoldable pub matches : Rule → Str → Bool
matches r path = any (has_prefix path) r.matchers

unfoldable pub pick_rule : List Rule → Str → Option Rule
pick_rule [] path = none
pick_rule (r ∷ rs) path = if matches r path then some r else pick_rule rs path

-- The names that are not blank.
unfoldable pub needed : List Str → List Str
needed [] = []
needed (n ∷ ns) = if str_eq (trim_space n) [] then needed ns else trim_space n ∷ needed ns

unfoldable pub has_any_cookie : List Str → List Str → Bool
has_any_cookie cookies names = any (λ c. member c (needed names)) cookies

-- The paths that `HandleControl` keeps from the proxy.
unfoldable pub handle_control : Str → Bool
handle_control path = member path (
    str "/wait0/invalidate"
    ∷ str "/wait0"
    ∷ str "/wait0/"
    ∷ str "/wait0/dashboard"
    ∷ str "/wait0/dashboard/"
    ∷ str "/wait0/dashboard/stats"
    ∷ str "/wait0/dashboard/invalidate"
    ∷ [])

-- The answers of the clock during one request; `since s` is `time.Since(time.Unix(s, 0))`.
pub record Times : Type 0 where
  pub loaded : ℕ
  pub read : ℕ
  pub stored : ℕ
  pub fetched : ℕ
  pub fetched_nano : ℕ
  pub since : ℕ → ℕ

unfoldable pub is_stale : Times → Entry → ℕ → Bool
is_stale t ent exp = slt exp (t.since ent.stored_at)

-- A refresh that is asked for: the key, the path, the query, and by whom.
pub record Refresh : Type 0 where
  pub key : Str
  pub path : Str
  pub query : Str
  pub by : Str

-- The reply of a request: left to a control endpoint, an entry with the text of the header X-Wait0,
-- or status 502.
pub data Reply : Type 0 where
  controlled : Reply
  replied : Entry → Str → Reply
  bad_gateway : Reply

-- What a request is answered with: the rules, the origin, and whether there is a log of overflows.
pub record Settings : Type 0 where
  pub rules : List Rule
  pub client : Client
  pub log : Bool

-- The queue of the disk after an eviction.
abbrev pub sink_ops : Sink → Queue → Queue
sink_ops none q = q
sink_ops (some q') q = q'

-- Why a request passes by the caches, where it does: the text of its header X-Wait0.
unfoldable pub passes : Option Rule → Request → Option Str
passes none r = if not (str_eq r.method (str "GET")) then some (str "bypass") else none
passes (some u) r =
    if u.bypass
    then some (str "bypass")
    else if has_any_cookie r.cookies u.bypass_when_cookies
    then some (str "ignore-by-cookie")
    else if not (str_eq r.method (str "GET"))
    then some (str "bypass")
    else none

module _ (p : Platform) where
  -- The caches, the refreshes that were asked for, and the sizes that the statistics were given.
  pub record Service : Type 0 where
    pub ram : Ram
    pub disk : Disk p
    pub refreshes : List Refresh
    pub observed : List ℕ

  -- The length of an encoded entry, where the encoder gives one.
  unfoldable pub encoded : Entry → Option ℕ
  encoded ent = elim (p.encode_entry ent) [ none ↦ none | some b ↦ some (p.blob_len b) ]

  -- `s.ram.Put(key, ent, s.disk, s.overflowLog)`, with fuel for every item of the cache, which is
  -- enough: `none` does not come.
  unfoldable pub ram_put : Settings → Times → Str → Entry → Service → Service
  ram_put cfg t key ent s =
      elim (put (suc (length s.ram.items)) (encoded ent) t.stored cfg.log key ent s.ram
        (some s.disk.ops)) [
          | none ↦ s
          | some e ↦ record s {
            ram = e.ram;
            disk = record s.disk { ops = sink_ops e.sink s.disk.ops };
          }
        ]

  unfoldable pub load_ram : Times → Str → Service → Service × Option Entry
  load_ram t key s = let r = Memory.get s.ram key t.loaded in (record s { ram = r.0 }, r.1)

  unfoldable pub load_disk : Times → Str → Service → Service × Option Entry
  load_disk t key s = let r = Stored.get p s.disk key t.read in (record s { disk = r.0 }, r.1)

  -- `DeleteKey` of the proxy and of the invalidation.
  unfoldable pub delete_everywhere : Str → Service → Service
  delete_everywhere key s = record s {
    ram = delete_key s.ram key;
    disk = delete_later p s.disk key;
  }

  unfoldable pub store : Settings → Times → Str → Entry → Service → Service
  store cfg t key ent s =
      let s1 = ram_put cfg t key ent s in record s1 { disk = put_later p s1.disk key ent }

  -- `WriteEntryWithStats`: hits and misses are counted.
  unfoldable pub write_with_stats : Entry → Str → Service → Service × Reply
  write_with_stats ent wait0 s =
      if str_eq wait0 (str "hit") || str_eq wait0 (str "miss")
      then (record s { observed = s.observed ++ (length ent.body % two64) ∷ [] }, replied ent wait0)
      else (s, replied ent wait0)

  -- The end of a hit: the reply, and a refresh of an entry that is too old.
  unfoldable pub reply_hit : Option Rule → Times → Request → Entry → Service → Service × Reply
  reply_hit rule t r ent s =
      let (s1, reply) = write_with_stats ent (str "hit") s in
      elim rule [
        | none ↦ (s1, reply)
        | some u ↦
            if is_pos u.expiration && is_stale t ent u.expiration
            then (
              record s1 {
                refreshes =
                    s1.refreshes
                    ++ record { key = r.path; path = r.path; query = r.raw_query; by = str "user" }
                      ∷ [];
              },
              reply,
            )
            else (s1, reply)
      ]

  unfoldable pub proxy_pass : Settings → Times → Request → Str → Service → Service × Reply
  proxy_pass cfg t r wait0 s = elim (fetch_from_origin cfg.client r t.fetched t.fetched_nano) [
    | none ↦ (s, bad_gateway)
    | some f ↦ write_with_stats f.ent wait0 s
  ]

  -- The end of `Handle`, where no cache has the entry.
  unfoldable pub handle_miss : Settings → Times → Request → Service → Service × Reply
  handle_miss cfg t r s = elim (fetch_from_origin cfg.client r t.fetched t.fetched_nano) [
    | none ↦ (s, bad_gateway)
    | some f ↦
        if str_eq f.status_kind (str "ignore-by-status")
        then write_with_stats f.ent (str "ignore-by-status") (delete_everywhere r.path s)
        else if not f.cacheable
        then write_with_stats f.ent (str "bypass") s
        else write_with_stats f.ent (str "miss") (store cfg t r.path f.ent s)
  ]

  -- After the read of the cache on disk.
  unfoldable pub after_disk :
      Settings → Times → Option Rule → Request → Service × Option Entry → Service × Reply
  after_disk cfg t rule r (s, none) = handle_miss cfg t r s
  after_disk cfg t rule r (s, some ent) =
      if not ent.inactive
      then reply_hit rule t r ent (ram_put cfg t r.path ent s)
      else handle_miss cfg t r s

  -- After the read of the cache in memory.
  unfoldable pub after_ram :
      Settings → Times → Option Rule → Request → Service × Option Entry → Service × Reply
  after_ram cfg t rule r (s, none) = after_disk cfg t rule r (load_disk t r.path s)
  after_ram cfg t rule r (s, some ent) =
      if not ent.inactive
      then reply_hit rule t r ent s
      else after_disk cfg t rule r (load_disk t r.path s)

  unfoldable pub handle : Settings → Times → Request → Service → Service × Reply
  handle cfg t r s =
      let rule = pick_rule cfg.rules r.path in
      if handle_control r.path then (s, controlled) else (elim (passes rule r) [
        | some wait0 ↦ proxy_pass cfg t r wait0 s
        | none ↦ after_ram cfg t rule r (load_ram t r.path s)
      ])

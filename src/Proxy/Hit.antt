-- ===== src/Proxy/Hit.antt =====
-- A response that was stored on a miss answers the next request: `Handle` of
-- internal/wait0/proxy/controller.go over the caches.
use wait.Base.{
  length, ◌++◌, ℕ, ◌≡◌, refl, sym, ap, ◌∙◌, Bool, true, false, ◌&&◌, Option, none, some, [], ◌∷◌,
  Str, str, str_eq, str_eq_refl, inl, inr, Bool-cases, Option-cases, is_pos, slt, two64, ◌%◌,
  lookup,
}
use wait.Cache.Entry.{Entry, Sink}
use wait.Cache.Lru.{Slot, Lru, Stores, too_big, replaced, added, find, lru_get}
use wait.Cache.Ram.{Ram}
use wait.Cache.Ram.Store.{new_slot}
use wait.Cache.Ram.Refines.{get-lru_get}
use wait.Cache.Disk.{Platform, Disk, peek, put_later}
use wait.Cache.Ram as Memory
use wait.Cache.Disk as Stored
use wait.Proxy.Origin.{
  Client, Request, Response, Fetched, fetched_of, fetch_from_origin, is_success, entry_of,
}
use wait.Proxy.{
  Service, Settings, Times, replied, Rule, encoded, ram_put, load_ram, load_disk, store,
  write_with_stats, reply_hit, handle_miss, after_disk, after_ram, handle, handle_control, passes,
  pick_rule, is_stale,
}
use wait.Proxy.Store.{IsService, ram_put-RamPut}

lru_get_head :
    (n : Slot) (l : Lru) (now : ℕ)
    → n.ent.inactive ≡ false
    → (lru_get (n ∷ l) n.key now).1 ≡ some n.ent
unfolding lru_get find
lru_get_head n l now on = simp (str_eq_refl n.key, on, lru_get, find)

pub stored_first :
    (limit : ℕ) (new : Slot) (old : Lru) (s : Sink) (l : Lru) (s' : Sink)
    → Stores limit new old s l s'
    → (is_pos limit && slt limit new.size) ≡ false
    → (rest : Lru) × (l ≡ new ∷ rest)
stored_first limit new old s l s' (too_big big _ _) small = absurd (let e = sym big ∙ small in cc)
stored_first limit new old s l s' (replaced _ t _ is _) small = (_, is)
stored_first limit new old s l s' (added _ _ kept _ _ is _ _ _) small = (kept, is)

-- A read that gives nothing changes nothing.
memory_missed :
    (c : Ram) (k : Str) (now : ℕ) → (Memory.get c k now).1 ≡ none → Memory.get c k now ≡ (c, none)
unfolding Memory.get
memory_missed c k now h = elim (Option-cases (lookup k c.items)) [
  | inl e ↦ simp (e, Memory.get)
  | inr (it, e) ↦ elim (Bool-cases (c.heap it).ent.inactive) [
    | inl off ↦ simp (e, off, Memory.get)
    | inr on ↦ absurd (let h' = simp (e, on, Memory.get) at h in cc)
  ]
]

abbrev cacheable_of : Option Fetched → Bool
cacheable_of none = false
cacheable_of (some f) = f.cacheable

abbrev kind_of : Option Fetched → Str
kind_of none = []
kind_of (some f) = f.status_kind

abbrev inactive_of : Option Fetched → Bool
inactive_of none = false
inactive_of (some f) = f.ent.inactive

cacheable_fetched :
    (client : Client) (r : Request) (now now_nano : ℕ) (f : Fetched)
    → fetch_from_origin client r now now_nano ≡ some f
    → f.cacheable ≡ true
    → (str_eq f.status_kind (str "ignore-by-status") ≡ false) × (f.ent.inactive ≡ false)
unfolding fetch_from_origin fetched_of entry_of str_eq
cacheable_fetched client r now now_nano f h ok = go _ h
  where
    go :
        (o : Option Response)
        → fetched_of client o now now_nano ≡ some f
        → (str_eq f.status_kind (str "ignore-by-status") ≡ false) × (f.ent.inactive ≡ false)
    go none h = absurd cc
    go (some resp) h = elim (Bool-cases (is_success resp.status)) [
      | inr bad ↦ absurd (
          let h' = simp (bad, fetched_of) at h in
          let c : false ≡ true = ap cacheable_of h' ∙ ok in cc)
      | inl good ↦
          let h' = simp (good, fetched_of) at h in
          (sym (ap (λ o. str_eq (kind_of o) (str "ignore-by-status")) h'), sym (ap inactive_of h'))
    ]

module _ (p : Platform) where
  stored_missed :
      (d : Disk p) (k : Str) (now : ℕ)
      → (Stored.get p d k now).1 ≡ none
      → Stored.get p d k now ≡ (d, none)
  unfolding Stored.get
  stored_missed d k now h = elim (Option-cases (peek p d k)) [
    | inl e ↦ simp (e, Stored.get)
    | inr (ent, e) ↦ elim (Bool-cases ent.inactive) [
      | inl off ↦ simp (e, off, Stored.get)
      | inr on ↦ elim (Option-cases (lookup k d.index)) [
        | inl f ↦ absurd (let h' = simp (e, on, f, Stored.get) at h in cc)
        | inr (m, f) ↦ absurd (let h' = simp (e, on, f, Stored.get) at h in cc)
      ]
    ]
  ]

  -- What was put is what a read gives, where it is not larger than the limit.
  ram_put-load_ram :
      (cfg : Settings) (t : Times) (key : Str) (ent : Entry) (s : Service p) (b : ℕ) (now : ℕ)
      → IsService p s
      → encoded p ent ≡ some b
      → (is_pos s.ram.max_bytes && slt s.ram.max_bytes (b % two64)) ≡ false
      → ent.inactive ≡ false
      → (Memory.get (ram_put p cfg t key ent s).ram key now).1 ≡ some ent
  ram_put-load_ram cfg t key ent s b now ok e small on =
      let r = ram_put-RamPut p cfg t key ent s b ok.list e ok.ram in
      let c = (ram_put p cfg t key ent s).ram in
      let (_, _, _, same) = get-lru_get c r.list r.ram key now in
      let (rest, first) = stored_first _ _ _ _ _ _ r.stores small in
      same
      ∙ (ap (λ l. (lru_get l key now).1) first
          ∙ lru_get_head (new_slot key ent b t.stored) rest now on)

  reply_hit-replied :
      (rule : Option Rule) (t : Times) (r : Request) (ent : Entry) (s : Service p)
      → (reply_hit p rule t r ent s).1 ≡ replied ent (str "hit")
  unfolding reply_hit write_with_stats str_eq
  reply_hit-replied none t r ent s = refl
  reply_hit-replied (some u) t r ent s =
      elim (Bool-cases (is_pos u.expiration && is_stale t ent u.expiration)) [
        | inl e ↦ rw e refl
        | inr e ↦ rw e refl
      ]

  -- A miss: the request is for the caches, neither cache gives an entry, and the response of the
  -- origin may be cached and is not larger than the limit of the cache in memory.
  pub record IsMiss (cfg : Settings) (t : Times) (r : Request) (s : Service p) (f : Fetched) (b : ℕ)
      : Type 0 where
    pub served : handle_control r.path ≡ false
    pub cached : passes (pick_rule cfg.rules r.path) r ≡ none
    pub no_ram : (Memory.get s.ram r.path t.loaded).1 ≡ none
    pub no_disk : (Stored.get p s.disk r.path t.read).1 ≡ none
    pub fetched : fetch_from_origin cfg.client r t.fetched t.fetched_nano ≡ some f
    pub cacheable : f.cacheable ≡ true
    pub encodes : encoded p f.ent ≡ some b
    pub small : (is_pos s.ram.max_bytes && slt s.ram.max_bytes (b % two64)) ≡ false

  miss-handle :
      (cfg : Settings) (t : Times) (r : Request) (s : Service p) (f : Fetched) (b : ℕ)
      → IsMiss cfg t r s f b
      → handle p cfg t r s ≡ write_with_stats p f.ent (str "miss") (store p cfg t r.path f.ent s)
  unfolding handle handle_miss load_ram load_disk after_ram after_disk
  miss-handle cfg t r s f b m =
      let rule = pick_rule cfg.rules r.path in
      let (kind, _) =
        cacheable_fetched cfg.client r t.fetched t.fetched_nano f m.fetched m.cacheable in
      let got : handle p cfg t r s ≡ after_ram p cfg t rule r (load_ram p t r.path s) =
        simp (m.served, m.cached, handle) in
      let no_ram : load_ram p t r.path s ≡ (s, none) =
        ap (λ (x : Ram × Option Entry). (record s { ram = x.0 }, x.1))
          (memory_missed s.ram r.path t.loaded m.no_ram) in
      let no_disk : load_disk p t r.path s ≡ (s, none) =
        ap (λ (x : Disk p × Option Entry). (record s { disk = x.0 }, x.1))
          (stored_missed s.disk r.path t.read m.no_disk) in
      let fetch : handle_miss p cfg t r s
          ≡ write_with_stats p f.ent (str "miss") (store p cfg t r.path f.ent s) =
        simp (m.fetched, kind, m.cacheable, handle_miss) in
      got
      ∙ (ap (after_ram p cfg t rule r) no_ram ∙ (ap (after_disk p cfg t rule r) no_disk ∙ fetch))

  write_miss :
      (ent : Entry) (s : Service p)
      → write_with_stats p ent (str "miss") s ≡ (
        record s { observed = s.observed ++ (length ent.body % two64) ∷ [] },
        replied ent (str "miss"),
      )
  unfolding write_with_stats str_eq
  write_miss ent s = refl

  pub store-ram :
      (cfg : Settings) (t : Times) (key : Str) (ent : Entry) (s : Service p)
      → (store p cfg t key ent s).ram ≡ (ram_put p cfg t key ent s).ram
  unfolding store put_later
  store-ram cfg t key ent s = refl

  after_ram-hit :
      (cfg : Settings) (t : Times) (rule : Option Rule) (r : Request)
      (loaded : Service p × Option Entry) (ent : Entry)
      → loaded.1 ≡ some ent
      → ent.inactive ≡ false
      → (after_ram p cfg t rule r loaded).1 ≡ replied ent (str "hit")
  unfolding after_ram
  after_ram-hit cfg t rule r (s, none) ent e on = absurd cc
  after_ram-hit cfg t rule r (s, some x) ent e on =
      let same : x ≡ ent = cc in
      let on' : x.inactive ≡ false = ap (λ (y : Entry). y.inactive) same ∙ on in
      simp (on', after_ram) (reply_hit-replied rule t r x s ∙ ap (λ y. replied y (str "hit")) same)

  hit-handle :
      (cfg : Settings) (t : Times) (r : Request) (s : Service p) (ent : Entry)
      → handle_control r.path ≡ false
      → passes (pick_rule cfg.rules r.path) r ≡ none
      → (Memory.get s.ram r.path t.loaded).1 ≡ some ent
      → ent.inactive ≡ false
      → (handle p cfg t r s).1 ≡ replied ent (str "hit")
  unfolding handle load_ram
  hit-handle cfg t r s ent served cached load on =
      let rule = pick_rule cfg.rules r.path in
      let got : handle p cfg t r s ≡ after_ram p cfg t rule r (load_ram p t r.path s) =
        simp (served, cached, handle) in
      ap (λ x. x.1) got ∙ after_ram-hit cfg t rule r (load_ram p t r.path s) ent load on

  -- From caches in order: on a miss the origin's entry is the reply, with `miss`, and the same
  -- request right after it is answered with that entry, with `hit`, whatever the origin and the
  -- clock say then.
  pub miss-then-hit :
      (cfg : Settings) (t : Times) (r : Request) (s : Service p) (f : Fetched) (b : ℕ)
      → IsService p s
      → IsMiss cfg t r s f b
      → (client' : Client) (t' : Times)
      → ((handle p cfg t r s).1 ≡ replied f.ent (str "miss"))
        × ((handle p (record cfg { client = client' }) t' r (handle p cfg t r s).0).1
            ≡ replied f.ent (str "hit"))
  miss-then-hit cfg t r s f b ok m client' t' = (first, second)
    where
      first : (handle p cfg t r s).1 ≡ replied f.ent (str "miss")
      first =
          ap (λ x. x.1) (miss-handle cfg t r s f b m)
          ∙ ap (λ x. x.1) (write_miss f.ent (store p cfg t r.path f.ent s))

      second :
          (handle p (record cfg { client = client' }) t' r (handle p cfg t r s).0).1
          ≡ replied f.ent (str "hit")
      second =
          let s2 = (handle p cfg t r s).0 in
          let (_, on) =
            cacheable_fetched cfg.client r t.fetched t.fetched_nano f m.fetched m.cacheable in
          let same : s2.ram ≡ (ram_put p cfg t r.path f.ent s).ram =
            ap (λ x. x.0.ram) (miss-handle cfg t r s f b m)
            ∙ (ap (λ x. x.0.ram) (write_miss f.ent (store p cfg t r.path f.ent s))
                ∙ store-ram cfg t r.path f.ent s) in
          let load : (Memory.get s2.ram r.path t'.loaded).1 ≡ some f.ent =
            ap (λ c. (Memory.get c r.path t'.loaded).1) same
            ∙ ram_put-load_ram cfg t r.path f.ent s b t'.loaded ok m.encodes m.small on in
          hit-handle (record cfg { client = client' }) t' r s2 f.ent m.served m.cached load on

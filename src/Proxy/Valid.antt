-- ===== src/Proxy/Valid.antt =====
-- Every request keeps the caches in order: `Handle` of internal/wait0/proxy/controller.go over
-- internal/wait0/proxy_runtime_adapter.go.
use wait.Base.{
  ℕ, ◌&&◌, ◌||◌, Option, none, some, Str, str, str_eq, inl, inr, Bool-cases, Option-cases, is_pos,
}
use wait.Cache.Entry.{Entry}
use wait.Cache.Ram.Refines.{get-lru_get, delete_key-without}
use wait.Cache.Disk.{Platform, delete_later, put_later, writer_step}
use wait.Cache.Disk.Total.{get-IsDisk, EncodesShort, writer_step-IsDisk}
use wait.Proxy.Origin.{Request, fetch_from_origin}
use wait.Proxy.{
  Service, Settings, Times, Rule, load_ram, load_disk, delete_everywhere, store, write_with_stats,
  reply_hit, proxy_pass, handle_miss, after_disk, after_ram, handle, handle_control, passes,
  pick_rule, is_stale,
}
use wait.Proxy.Store.{IsService, ram_put-IsService}

module _ (p : Platform) where
  pub load_ram-IsService :
      (t : Times) (key : Str) (s : Service p) → IsService p s → IsService p (load_ram p t key s).0
  unfolding load_ram
  load_ram-IsService t key s ok =
      let (l, ram, _, _) = get-lru_get s.ram ok.list ok.ram key t.loaded in
      record { list = l; ram = ram; disk = ok.disk }

  pub load_disk-IsService :
      (t : Times) (key : Str) (s : Service p) → IsService p s → IsService p (load_disk p t key s).0
  unfolding load_disk
  load_disk-IsService t key s ok = record {
    list = ok.list;
    ram = ok.ram;
    disk = get-IsDisk p s.disk ok.disk key t.read;
  }

  pub delete_everywhere-IsService :
      (key : Str) (s : Service p) → IsService p s → IsService p (delete_everywhere p key s)
  unfolding delete_everywhere delete_later
  delete_everywhere-IsService key s ok =
      let (l, ram, _) = delete_key-without s.ram ok.list ok.ram key in
      record { list = l; ram = ram; disk = ok.disk }

  pub store-IsService :
      (cfg : Settings) (t : Times) (key : Str) (ent : Entry) (s : Service p)
      → IsService p s
      → IsService p (store p cfg t key ent s)
  unfolding store put_later
  store-IsService cfg t key ent s ok =
      let o = ram_put-IsService p cfg t key ent s ok in
      record { list = o.list; ram = o.ram; disk = o.disk }

  write-IsService :
      (ent : Entry) (wait0 : Str) (s : Service p)
      → IsService p s
      → IsService p (write_with_stats p ent wait0 s).0
  unfolding write_with_stats
  write-IsService ent wait0 s ok =
      elim (Bool-cases (str_eq wait0 (str "hit") || str_eq wait0 (str "miss"))) [
        | inl e ↦ rw e (record { list = ok.list; ram = ok.ram; disk = ok.disk })
        | inr e ↦ rw e ok
      ]

  reply_hit-IsService :
      (rule : Option Rule) (t : Times) (r : Request) (ent : Entry) (s : Service p)
      → IsService p s
      → IsService p (reply_hit p rule t r ent s).0
  unfolding reply_hit
  reply_hit-IsService none t r ent s ok = write-IsService ent (str "hit") s ok
  reply_hit-IsService (some u) t r ent s ok =
      let o = write-IsService ent (str "hit") s ok in
      elim (Bool-cases (is_pos u.expiration && is_stale t ent u.expiration)) [
        | inl e ↦ rw e (record { list = o.list; ram = o.ram; disk = o.disk })
        | inr e ↦ rw e o
      ]

  proxy_pass-IsService :
      (cfg : Settings) (t : Times) (r : Request) (wait0 : Str) (s : Service p)
      → IsService p s
      → IsService p (proxy_pass p cfg t r wait0 s).0
  unfolding proxy_pass
  proxy_pass-IsService cfg t r wait0 s ok =
      elim (Option-cases (fetch_from_origin cfg.client r t.fetched t.fetched_nano)) [
        | inl e ↦ simp (e, proxy_pass) ok
        | inr (f, e) ↦ simp (e, proxy_pass) (write-IsService f.ent wait0 s ok)
      ]

  handle_miss-IsService :
      (cfg : Settings) (t : Times) (r : Request) (s : Service p)
      → IsService p s
      → IsService p (handle_miss p cfg t r s).0
  unfolding handle_miss
  handle_miss-IsService cfg t r s ok =
      elim (Option-cases (fetch_from_origin cfg.client r t.fetched t.fetched_nano)) [
        | inl e ↦ simp (e, handle_miss) ok
        | inr (f, e) ↦ elim (Bool-cases (str_eq f.status_kind (str "ignore-by-status"))) [
          | inl g ↦
              simp (e, g, handle_miss)
                (write-IsService f.ent (str "ignore-by-status") _
                  (delete_everywhere-IsService r.path s ok))
          | inr g ↦ elim (Bool-cases f.cacheable) [
            | inr h ↦ simp (e, g, h, handle_miss) (write-IsService f.ent (str "bypass") s ok)
            | inl h ↦
                simp (e, g, h, handle_miss)
                  (write-IsService f.ent (str "miss") _ (store-IsService cfg t r.path f.ent s ok))
          ]
        ]
      ]

  after_disk-IsService :
      (cfg : Settings) (t : Times) (rule : Option Rule) (r : Request)
      (loaded : Service p × Option Entry)
      → IsService p loaded.0
      → IsService p (after_disk p cfg t rule r loaded).0
  unfolding after_disk
  after_disk-IsService cfg t rule r (s, none) ok = handle_miss-IsService cfg t r s ok
  after_disk-IsService cfg t rule r (s, some ent) ok = elim (Bool-cases ent.inactive) [
    | inl off ↦ simp (off, after_disk) (handle_miss-IsService cfg t r s ok)
    | inr on ↦
        simp (on, after_disk)
          (reply_hit-IsService rule t r ent _ (ram_put-IsService p cfg t r.path ent s ok))
  ]

  after_ram-IsService :
      (cfg : Settings) (t : Times) (rule : Option Rule) (r : Request)
      (loaded : Service p × Option Entry)
      → IsService p loaded.0
      → IsService p (after_ram p cfg t rule r loaded).0
  unfolding after_ram
  after_ram-IsService cfg t rule r (s, none) ok =
      after_disk-IsService cfg t rule r _ (load_disk-IsService t r.path s ok)
  after_ram-IsService cfg t rule r (s, some ent) ok = elim (Bool-cases ent.inactive) [
    | inl off ↦
        simp (off, after_ram)
          (after_disk-IsService cfg t rule r _ (load_disk-IsService t r.path s ok))
    | inr on ↦ simp (on, after_ram) (reply_hit-IsService rule t r ent s ok)
  ]

  pub handle-IsService :
      (cfg : Settings) (t : Times) (r : Request) (s : Service p)
      → IsService p s
      → IsService p (handle p cfg t r s).0
  unfolding handle
  handle-IsService cfg t r s ok = elim (Bool-cases (handle_control r.path)) [
    | inl e ↦ simp (e, handle) ok
    | inr e ↦ elim (Option-cases (passes (pick_rule cfg.rules r.path) r)) [
      | inl f ↦
          simp (e, f, handle)
            (after_ram-IsService cfg t (pick_rule cfg.rules r.path) r _
              (load_ram-IsService t r.path s ok))
      | inr (wait0, f) ↦ simp (e, f, handle) (proxy_pass-IsService cfg t r wait0 s ok)
    ]
  ]

  -- A state that requests and the writer of the disk reach from a state in order.
  pub data Serves (cfg : Settings) (s : Service p) : Service p → Type 0 where
    begins : Serves cfg s s
    requested :
        (t : Times) (r : Request) (s' : Service p)
        → Serves cfg s s'
        → Serves cfg s (handle p cfg t r s').0
    written :
        (now : ℕ) (s' : Service p)
        → Serves cfg s s'
        → Serves cfg s (record s' { disk = writer_step p s'.disk now })

  -- Where encoded entries are shorter than 2 ^ 63 bytes: whatever requests are handled and whatever
  -- the disk's writer does between them, from caches in order, the caches stay in order: the list,
  -- the map and the count of the cache in memory, and the index and the count of the cache on disk.
  pub Serves-IsService :
      (cfg : Settings) (s s' : Service p)
      → EncodesShort p
      → IsService p s
      → Serves cfg s s'
      → IsService p s'
  Serves-IsService cfg s _ short ok begins = ok
  Serves-IsService cfg s _ short ok (requested t r v v_from) =
      handle-IsService cfg t r v (Serves-IsService cfg s v short ok v_from)
  Serves-IsService cfg s _ short ok (written now v v_from) =
      let o = Serves-IsService cfg s v short ok v_from in
      record { list = o.list; ram = o.ram; disk = writer_step-IsDisk p short v.disk now o.disk }

-- ===== src/Discovery/Once/Seeds.antt =====
-- What `DiscoverOnce` of internal/wait0/discovery/controller.go does to the caches.
use mathlib.Core.Path.{subst}
use mathlib.Core.List.{append_assoc, append-nil}
use wait.Base.{
  ℕ, suc, zero, ◌≡◌, ◌⊎◌, refl, sym, ap, ◌∙◌, true, false, Option, none, some, List, [], ◌∷◌, ◌++◌,
  Str, str, str_eq, member, has_prefix, length, length-append, All, All-append, Bool-cases, inl,
  inr, arith,
}
use wait.Cache.Entry.{Entry, Queue, DiskOp, put_async}
use wait.Cache.Disk.{Platform, put_later}
use wait.Cache.Ram as Memory
use wait.Cache.Disk as Stored
use wait.Proxy.{Service, Rule, pick_rule}
use wait.Discovery.Sitemap.{
  Web, SitemapDoc, normalize_path_from_loc, normalize_path_from_loc-rooted, fetch_and_parse_sitemap,
}
use wait.Discovery.Once.{
  Config, Signal, quiet, cancelled, stopping, Ending, absolute, seed, is_active, serves, Discovery,
  put_disk, visit_path, visit_locs, visit_doc, on_doc, on_url, discover, discover_once,
}

serves-some : (o : Option Rule) → serves o ≡ true → (r : Rule) × (o ≡ some r) × (r.bypass ≡ false)
unfolding serves
serves-some none h = absurd cc
serves-some (some r) h = (r, refl, ground (arith, h))

is_active-some :
    (o : Option Entry) (e : Entry) → o ≡ some e → is_active o ≡ false → e.inactive ≡ true
unfolding is_active
is_active-some o e there h = ground (arith, there, h)

module _ (p : Platform) (web : Web) (cfg : Config) (clock : ℕ → ℕ) (s : Service p) where
  -- A put of an entry that is not active and has no body, discovered by the sitemap at a time of the
  -- clock, under a path with a rule that does not bypass the caches,
  -- where neither cache has an active entry.
  pub record IsSeed (op : DiskOp) : Type 0 where
    pub ent : Entry
    pub put : op ≡ record { put_key = op.put_key; put_ent = some ent; del_key = [] }
    pub inactive : ent.inactive ≡ true
    pub empty : (ent.status ≡ 200) × (ent.header ≡ []) × (ent.body ≡ []) × (ent.hash32 ≡ 0)
    pub discovered : ent.discovered_by ≡ str "sitemap"
    pub number : ℕ
    pub stored_at : ent.stored_at ≡ clock number
    pub never_refreshed : (ent.revalidated_at ≡ 0) × (ent.revalidated_by ≡ [])
    pub rooted : has_prefix op.put_key (str "/") ≡ true
    pub rule : Rule
    pub picked : pick_rule cfg.rules op.put_key ≡ some rule
    pub served : rule.bypass ≡ false
    pub not_in_memory : (e : Entry) → Memory.peek s.ram op.put_key ≡ some e → e.inactive ≡ true
    pub not_on_disk : (e : Entry) → Stored.peek p s.disk op.put_key ≡ some e → e.inactive ≡ true

  -- The caches are those of the start, but for puts at the end of the disk's queue, which `stored`
  -- counts.
  pub record IsSeeded (d : Discovery p) : Type 0 where
    pub ops : Queue
    pub same : d.service ≡ record s { disk = record s.disk { ops = s.disk.ops ++ ops } }
    pub seeds : All IsSeed ops
    pub counted : d.stored ≡ length ops

  abbrev put_of : ℕ → Str → DiskOp
  put_of n path = record { put_key = path; put_ent = some (seed (clock n)); del_key = [] }

  put-IsSeeded :
      (path : Str) (d : Discovery p)
      → IsSeeded d
      → IsSeed (put_of d.stored path)
      → IsSeeded (record d {
        stored = suc d.stored;
        service = put_disk p path (seed (clock d.stored)) d.service;
      })
  unfolding put_disk put_later put_async
  put-IsSeeded path d ok new = record {
    ops = ok.ops ++ put_of d.stored path ∷ [];
    same =
        ap (put_disk p path (seed (clock d.stored))) ok.same
        ∙ ap (λ q. record s { disk = record s.disk { ops = q } })
            (append_assoc s.disk.ops ok.ops (put_of d.stored path ∷ []));
    seeds = All-append IsSeed ok.ops (put_of d.stored path ∷ []) ok.seeds (new, tt);
    counted = omega (arith, ok.counted, length-append ok.ops (put_of d.stored path ∷ []));
  }

  visit_path-IsSeeded :
      (path : Str) (d : Discovery p)
      → (path ≡ []) ⊎ (has_prefix path (str "/") ≡ true)
      → IsSeeded d
      → IsSeeded (visit_path p cfg clock path d)
  unfolding visit_path str_eq Stored.peek seed
  visit_path-IsSeeded path d (inl e) ok = simp (e, visit_path) ok
  visit_path-IsSeeded path d (inr root) ok = elim (Bool-cases (str_eq path [])) [
    | inl blank ↦ simp (blank, visit_path) ok
    | inr full ↦ elim (Bool-cases (serves (pick_rule cfg.rules path))) [
      | inr no_rule ↦
          simp (full, no_rule, visit_path)
            (record { ops = ok.ops; same = ok.same; seeds = ok.seeds; counted = ok.counted })
      | inl rule ↦ elim (Bool-cases (is_active (Memory.peek d.service.ram path))) [
        | inl in_memory ↦ simp (full, rule, in_memory, visit_path) ok
        | inr memory ↦ elim (Bool-cases (is_active (Stored.peek p d.service.disk path))) [
          | inl on_disk ↦ simp (full, rule, memory, on_disk, visit_path) ok
          | inr disk ↦
              simp (full, rule, memory, disk, visit_path)
                (put-IsSeeded path d ok (record {
                  ent = seed (clock d.stored);
                  put = refl;
                  inactive = refl;
                  empty = (refl, refl, refl, refl);
                  discovered = refl;
                  number = d.stored;
                  stored_at = refl;
                  never_refreshed = (refl, refl);
                  rooted = root;
                  rule = (serves-some (pick_rule cfg.rules path) rule).0;
                  picked = (serves-some (pick_rule cfg.rules path) rule).1;
                  served = (serves-some (pick_rule cfg.rules path) rule).2;
                  not_in_memory = λ x there. is_active-some (Memory.peek s.ram path) x there (
                      sym (ap (λ (x : Service p). is_active (Memory.peek x.ram path)) ok.same)
                      ∙ memory);
                  not_on_disk = λ x there. is_active-some (Stored.peek p s.disk path) x there (
                      sym (ap (λ (x : Service p). is_active (Stored.peek p x.disk path)) ok.same)
                      ∙ disk);
                }))
        ]
      ]
    ]
  ]

  visit_locs-IsSeeded :
      (locs : List Str) (d : Discovery p)
      → IsSeeded d
      → IsSeeded (visit_locs p web cfg clock locs d)
  unfolding visit_locs
  visit_locs-IsSeeded [] d ok = ok
  visit_locs-IsSeeded (loc ∷ locs) d ok =
      let path = normalize_path_from_loc web loc in
      visit_locs-IsSeeded locs (visit_path p cfg clock path d)
        (visit_path-IsSeeded path d (normalize_path_from_loc-rooted web loc) ok)

  -- What a run gives, if it gives something.
  abbrev Gives : Option (Ending × Discovery p) → Type 0
  Gives none = Unit
  Gives (some r) = IsSeeded r.1

  on_doc-Gives :
      (url : Str) (rest : Discovery p → Option (Ending × Discovery p)) (d : Discovery p)
      (o : Option SitemapDoc)
      → IsSeeded d
      → ((d' : Discovery p) → IsSeeded d' → Gives (rest d'))
      → Gives (on_doc p web cfg clock url rest d o)
  unfolding on_doc visit_doc
  on_doc-Gives url rest d none ok goes = ok
  on_doc-Gives url rest d (some doc) ok goes = goes (visit_doc p web cfg clock doc d) (
      visit_locs-IsSeeded doc.urls _
        (record { ops = ok.ops; same = ok.same; seeds = ok.seeds; counted = ok.counted }))

  on_url-Gives :
      (url : Str) (rest : Discovery p → Option (Ending × Discovery p)) (d : Discovery p)
      (sig : Signal)
      → IsSeeded d
      → ((d' : Discovery p) → IsSeeded d' → Gives (rest d'))
      → Gives (on_url p web cfg clock url rest d sig)
  unfolding on_url
  on_url-Gives url rest d cancelled ok goes = ok
  on_url-Gives url rest d stopping ok goes = ok
  on_url-Gives url rest d quiet ok goes = elim (Bool-cases (member url d.seen)) [
    | inl old ↦ simp (old, on_url) (goes d ok)
    | inr new ↦
        simp (new, on_url)
          (on_doc-Gives url rest (record d { seen = url ∷ d.seen })
            (fetch_and_parse_sitemap web url)
            (record { ops = ok.ops; same = ok.same; seeds = ok.seeds; counted = ok.counted }) goes)
  ]

  discover-Gives :
      (signals : ℕ → Signal) (fuel : ℕ) (queue : List Str) (d : Discovery p)
      → IsSeeded d
      → Gives (discover p web cfg clock signals fuel (record d { queue = queue }))
  unfolding discover
  discover-Gives signals zero queue d ok = tt
  discover-Gives signals (suc fuel) [] d ok = record {
    ops = ok.ops;
    same = ok.same;
    seeds = ok.seeds;
    counted = ok.counted;
  }
  discover-Gives signals (suc fuel) (url ∷ queue) d ok =
      on_url-Gives url (λ d'. discover p web cfg clock signals fuel d') (record d { queue = queue })
        (signals fuel)
        (record { ops = ok.ops; same = ok.same; seeds = ok.seeds; counted = ok.counted })
        (λ d' ok'. discover-Gives signals fuel d'.queue d' ok')

  -- However a run ends, all that it did to the caches is to put seeds into the queue of the disk, as
  -- many as it counts: entries that are not active, of status 200 without headers and body, with
  -- `sitemap` as their discoverer and a time of the clock, never refreshed, under rooted paths with a
  -- rule that does not bypass the caches, where neither cache had an active entry at the start.
  pub discover_once-IsSeeded :
      (signals : ℕ → Signal) (fuel : ℕ) (ending : Ending) (d : Discovery p)
      → discover_once p web cfg clock signals fuel s ≡ some (ending, d)
      → IsSeeded d
  unfolding discover_once
  discover_once-IsSeeded signals fuel ending d e = subst Gives e (
      discover-Gives signals fuel (absolute cfg.origin cfg.sitemaps)
        (record { seen = []; queue = []; stored = 0; ignored = 0; service = s })
        (record {
          ops = [];
          same =
              ap (λ q. record s { disk = record s.disk { ops = q } }) (sym (append-nil s.disk.ops));
          seeds = tt;
          counted = refl;
        }))

-- ===== src/Discovery/Once/Ends.antt =====
-- `DiscoverOnce` of internal/wait0/discovery/controller.go comes to an end where the sitemaps that it
-- can reach are finitely many, whether or not they name each other in circles.
use wait.Base.{
  ℕ, suc, zero, ◌+◌, ◌<◌, ◌≤◌, ◌≡◌, refl, ap, ◌∙◌, true, false, Option, none, some, List, [], ◌∷◌,
  ◌++◌, Str, str_eq, str_eq_refl, str_eq_iff, member, member-append, length, length-append,
  if◌then◌else◌, Bool-cases, Option-cases, is_some, inl, inr, arith,
}
use wait.Cache.Disk.{Platform}
use wait.Proxy.{Service}
use wait.Discovery.Sitemap.{Web, SitemapDoc, normalize_path_from_loc, fetch_and_parse_sitemap}
use wait.Discovery.Once.{
  Config, Signal, quiet, cancelled, stopping, Ending, absolute, Discovery, visit_path, visit_locs,
  visit_doc, on_doc, on_url, discover, discover_once,
}

-- The addresses that the sitemap at an address names.
unfoldable pub named_by : Config → Option SitemapDoc → List Str
named_by cfg none = []
named_by cfg (some doc) = absolute cfg.origin doc.sitemaps

unfoldable pub nested_of : Web → Config → Str → List Str
nested_of web cfg url = named_by cfg (fetch_and_parse_sitemap web url)

-- How many addresses the sitemaps of the list that were not read yet name.
unfoldable pub unread : Web → Config → List Str → List Str → ℕ
unread web cfg seen [] = 0
unread web cfg seen (u ∷ us) =
    (if member u seen then 0 else length (nested_of web cfg u)) + unread web cfg seen us

unread-cons-le :
    (web : Web) (cfg : Config) (url : Str) (seen us : List Str)
    → unread web cfg (url ∷ seen) us ≤ unread web cfg seen us
unfolding unread member
unread-cons-le web cfg url seen [] = ground arith
unread-cons-le web cfg url seen (u ∷ us) = ground (arith, unread-cons-le web cfg url seen us)

-- A sitemap that is read counts no more.
unread_read :
    (web : Web) (cfg : Config) (url : Str) (seen us : List Str)
    → member url us ≡ true
    → member url seen ≡ false
    → unread web cfg (url ∷ seen) us + length (nested_of web cfg url) ≤ unread web cfg seen us
unfolding unread member
unread_read web cfg url seen [] there new = absurd cc
unread_read web cfg url seen (u ∷ us) there new = elim (Bool-cases (str_eq u url)) [
  | inl e ↦ ground (
    arith,
    unread-cons-le web cfg url seen us,
    str_eq_iff u url,
    str_eq_iff url u,
    λ (q : u ≡ url). ap (λ x. length (nested_of web cfg x)) q,
    λ (q : u ≡ url). ap (λ x. member x seen) q,
    e,
    new,
  )
  | inr e ↦
      ground
        (arith, unread_read web cfg url seen us, e, there, new, str_eq_iff url u, str_eq_iff u url)
]

module _ (p : Platform) (web : Web) (cfg : Config) (clock : ℕ → ℕ) where
  visit_path-queue :
      (path : Str) (d : Discovery p)
      → ((visit_path p cfg clock path d).queue ≡ d.queue)
        × ((visit_path p cfg clock path d).seen ≡ d.seen)
  unfolding visit_path
  visit_path-queue path d = (ground arith, ground arith)

  visit_locs-queue :
      (locs : List Str) (d : Discovery p)
      → ((visit_locs p web cfg clock locs d).queue ≡ d.queue)
        × ((visit_locs p web cfg clock locs d).seen ≡ d.seen)
  unfolding visit_locs
  visit_locs-queue [] d = (refl, refl)
  visit_locs-queue (loc ∷ locs) d =
      let path = normalize_path_from_loc web loc in
      let one = visit_path-queue path d in
      let rest = visit_locs-queue locs (visit_path p cfg clock path d) in
      (rest.0 ∙ one.0, rest.1 ∙ one.1)

  module _ (us : List Str) where
    -- The sitemaps that those of the list name are in the list.
    abbrev pub IsClosed : Type 0
    IsClosed =
        (u v : Str)
        → member u us ≡ true
        → member v (nested_of web cfg u) ≡ true
        → member v us ≡ true

    -- The queue names sitemaps of the list, and fewer rounds are left than units of fuel.
    record IsBounded (fuel : ℕ) (queue seen : List Str) : Type 0 where
      within : (v : Str) → member v queue ≡ true → member v us ≡ true
      bound : length queue + unread web cfg seen us < fuel

    IsBounded-tail :
        (fuel : ℕ) (url : Str) (queue seen : List Str)
        → IsBounded (suc fuel) (url ∷ queue) seen
        → IsBounded fuel queue seen
    unfolding member
    IsBounded-tail fuel url queue seen ok = record {
      within = λ v e. ok.within v (ground (arith, e));
      bound = omega (arith, ok.bound);
    }

    IsBounded-read :
        (fuel : ℕ) (url : Str) (queue seen : List Str)
        → IsClosed
        → IsBounded (suc fuel) (url ∷ queue) seen
        → member url seen ≡ false
        → IsBounded fuel (queue ++ nested_of web cfg url) (url ∷ seen)
    unfolding member
    IsBounded-read fuel url queue seen closed ok new =
        let here = ok.within url (ground (arith, str_eq_refl url)) in
        record {
          within = λ v e. ground (
            arith,
            member-append v queue (nested_of web cfg url),
            e,
            closed url v here,
            ok.within v,
          );
          bound = omega (
            arith,
            ok.bound,
            unread_read web cfg url seen us here new,
            length-append queue (nested_of web cfg url),
          );
        }

    on_url-ends :
        (fuel : ℕ) (url : Str) (rest : Discovery p → Option (Ending × Discovery p))
        (d : Discovery p) (sig : Signal)
        → IsClosed
        → IsBounded (suc fuel) (url ∷ d.queue) d.seen
        → ((d' : Discovery p) → IsBounded fuel d'.queue d'.seen → is_some (rest d') ≡ true)
        → is_some (on_url p web cfg clock url rest d sig) ≡ true
    unfolding on_url on_doc visit_doc nested_of absolute named_by
    on_url-ends fuel url rest d cancelled closed ok goes = refl
    on_url-ends fuel url rest d stopping closed ok goes = refl
    on_url-ends fuel url rest d quiet closed ok goes = elim (Bool-cases (member url d.seen)) [
      | inl old ↦ simp (old, on_url) (goes d (IsBounded-tail fuel url d.queue d.seen ok))
      | inr new ↦ elim (Option-cases (fetch_and_parse_sitemap web url)) [
        | inl e ↦ simp (new, e, on_url, on_doc) refl
        | inr (doc, e) ↦
            let next = record d { seen = url ∷ d.seen } in
            let same =
              visit_locs-queue doc.urls
                (record next { queue = d.queue ++ absolute cfg.origin doc.sitemaps }) in
            simp (new, e, on_url, on_doc)
              (goes (visit_doc p web cfg clock doc next) (
                rw same.0 (
                  rw same.1 (
                    let read = IsBounded-read fuel url d.queue d.seen closed ok new in
                    simp (e, nested_of) at read))))
      ]
    ]

    discover-ends :
        (signals : ℕ → Signal) (fuel : ℕ) (queue : List Str) (d : Discovery p)
        → IsClosed
        → IsBounded fuel queue d.seen
        → is_some (discover p web cfg clock signals fuel (record d { queue = queue })) ≡ true
    unfolding discover
    discover-ends signals zero queue d closed ok = absurd (ground (arith, ok.bound))
    discover-ends signals (suc fuel) [] d closed ok = refl
    discover-ends signals (suc fuel) (url ∷ queue) d closed ok =
        on_url-ends fuel url (λ d'. discover p web cfg clock signals fuel d')
          (record d { queue = queue }) (signals fuel) closed ok
          (λ d' ok'. discover-ends signals fuel d'.queue d' closed ok')

    -- Where the sitemaps that can be reached are those of a finite list, a run comes to an end: more
    -- rounds than there are sitemaps in the configuration and names of sitemaps in the listed ones
    -- are not needed, whatever the origin answers and the signals are.
    pub discover_once-ends :
        (signals : ℕ → Signal) (fuel : ℕ) (s : Service p)
        → IsClosed
        → ((v : Str) → member v (absolute cfg.origin cfg.sitemaps) ≡ true → member v us ≡ true)
        → length (absolute cfg.origin cfg.sitemaps) + unread web cfg [] us < fuel
        → is_some (discover_once p web cfg clock signals fuel s) ≡ true
    unfolding discover_once
    discover_once-ends signals fuel s closed within bound =
        discover-ends signals fuel (absolute cfg.origin cfg.sitemaps)
          (record { seen = []; queue = []; stored = 0; ignored = 0; service = s }) closed
          (record { within = within; bound = bound })

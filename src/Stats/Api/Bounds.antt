-- ===== src/Stats/Api/Bounds.antt =====
-- The counts of `buildSnapshot` of internal/wait0/statapi/controller.go.
use wait.Base.{
  ℕ, ◌+◌, ◌*◌, ◌%◌, ◌≤◌, ◌≡◌, List, [], ◌∷◌, Str, Dict, two64, ◌==◌, true, any, All, ◌⊎◌,
}
use wait.Cache.Disk.{Platform}
use wait.Proxy.{Service}
use wait.Stats.Collector.{Collector}
use wait.Stats.Api.{StatMeta, Totals, Response, size_of, meta_at, ram_meta, disk_meta_of, all_keys}

-- The sizes of the entries at the keys, without overflow.
unfoldable pub sum_sizes : Dict StatMeta → Dict StatMeta → List Str → ℕ
sum_sizes ram disk [] = 0
sum_sizes ram disk (k ∷ ks) = size_of (meta_at ram disk k) + sum_sizes ram disk ks

-- The numbers of the list.
abbrev sizes_at : Dict StatMeta → Dict StatMeta → List Str → List ℕ
sizes_at ram disk [] = []
sizes_at ram disk (k ∷ ks) = size_of (meta_at ram disk k) ∷ sizes_at ram disk ks

-- `least` is the smallest number of the list and `most` the largest; both are 0 for no numbers.
unfoldable pub IsRange : List ℕ → ℕ → ℕ → Type 0
IsRange [] least most = (least ≡ 0) × (most ≡ 0)
IsRange (n ∷ ns) least most =
    (any (λ x. x == least) (n ∷ ns) ≡ true)
    × (any (λ x. x == most) (n ∷ ns) ≡ true)
    × All (λ x. (least ≤ x) × (x ≤ most)) (n ∷ ns)

-- The counts of `n` entries of the sum `total`.
record Counts (n total : ℕ) (t : Totals) : Type 0 where
  summed : t.total_size ≡ total % two64
  count : t.resp_count ≡ n
  least : n * t.resp_min ≤ total
  most : total ≤ n * t.resp_max
  crawled : t.sitemap_crawled ≤ t.sitemap_discovered
  discovered : t.sitemap_discovered ≤ n

-- What the loop makes of the least and the largest size so far.
record Ranges (a b : ℕ) (ns : List ℕ) (least most : ℕ) : Type 0 where
  least-le : least ≤ a
  le-most : b ≤ most
  all : All (λ x. (least ≤ x) × (x ≤ most)) ns
  least_in : (least ≡ a) ⊎ (any (λ x. x == least) ns ≡ true)
  most_in : (most ≡ b) ⊎ (any (λ x. x == most) ns ≡ true)

module _ (p : Platform) where
  -- What the numbers of a snapshot promise each other.
  pub record IsConsistent (s : Service p) (r : Response) : Type 0 where
    pub total :
        r.responses_size_bytes_total ≡ sum_sizes (ram_meta p s) (disk_meta_of p s) (all_keys p s)
    pub range :
        IsRange
          (sizes_at (ram_meta p s) (disk_meta_of p s) (all_keys p s))
          r.response_size_bytes.min
          r.response_size_bytes.max
    pub min-le-avg : r.response_size_bytes.min ≤ r.response_size_bytes.avg
    pub avg-le-max : r.response_size_bytes.avg ≤ r.response_size_bytes.max
    pub crawled : r.crawled_urls ≤ r.discovered_urls
    pub discovered : r.discovered_urls ≤ r.urls_total

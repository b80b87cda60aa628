-- ===== src/Lib.antt =====
-- wait0: a caching HTTP proxy. A response of the origin is kept in memory, in a least recently used
-- cache that is bounded in bytes, and on disk, in a LevelDB database with an index in memory. A
-- request is answered from memory, then from disk, then by the origin; entries are refreshed in the
-- background and deleted through an endpoint with bearer tokens.
--
-- The parts, with the files of the repository that they model:
--   Base             numbers, int64 as bit patterns, text, maps as association lists, sets
--   Cache.Entry      internal/wait0/cache/types.go, and the operations of the disk's queue
--   Cache.Ram        internal/wait0/cache/ram.go: the map, the pointers of the linked list over a
--                    heap of addresses, and each method as a function from state to state
--   Cache.Lru        what that cache promises: a list of entries, most recent first
--   Cache.Disk       internal/wait0/cache/disk.go: the index, the queue of operations, the writer as
--                    one step per operation
--   Auth             internal/wait0/auth/bearer.go
--   Proxy            internal/wait0/proxy/controller.go (Handle, proxyPass) and types.go, over the
--                    two caches as internal/wait0/proxy_runtime_adapter.go joins them; pickRule of
--                    internal/wait0/service_core.go and Matches of internal/wait0/config.go
--   Proxy.Origin     internal/wait0/proxy/origin.go
--   Proxy.Headers    internal/wait0/proxy/headers.go
--   Invalidation     internal/wait0/invalidation: normalize.go, Handle of controller.go, and
--                    processJob over the two caches, as invalidation_runtime_adapter.go joins them
--   Revalidation     Once and WarmupGroupLoop of internal/wait0/revalidation/controller.go: the
--                    first over the two caches, the second as a step relation
--   Revalidation.Keys  KeysByLastAccessDesc and AllKeysSnapshot of that file, over the two caches as
--                    internal/wait0/revalidation_runtime_adapter.go joins them
--   Config           internal/wait0/config.go: parseMatch, the defaults, the tokens, and LoadConfig
--                    on a parsed document (Config.Load)
--   Dashboard        internal/wait0/dashboard/controller.go: the limiter, the address of a client,
--                    the tests of the origin and of the token, and Handle
--   Discovery        internal/wait0/discovery/controller.go over the two caches: the addresses and
--                    the reading of sitemaps, and DiscoverOnce
--   Startup          internal/wait0/service_core.go: the environment and configureDashboard
--   Stats.Collector  internal/wait0/stats/collector.go: goroutines whose steps are the atomic
--                    operations, as a step relation
--   Stats.Service    CachedPathsCount of internal/wait0/stats/service.go
--   Stats.Api        internal/wait0/statapi/controller.go over the two caches
--
-- A Go pointer is an address of a heap, nil is `none`; a map is an association list; an int64 is its
-- bit pattern below 2 ^ 64 and wraps. A method that takes a lock is one step. The time and the
-- random text are arguments. The loop that makes room in memory runs on fuel, one unit per round:
-- each round takes an item out, so one unit more than the items of the cache is enough, and the
-- proxy gives that.
--
-- DiscoverOnce runs on fuel too, one unit per round, since the origin may name sitemaps without end;
-- the names of sitemaps in those that can be reached, where they are finitely many, are fuel enough.
--
-- Code outside the repository is a parameter: LevelDB, gob and the order of the eviction's sort
-- (Platform), the HTTP client and crc32 (Client), net/url, mime and the JSON decoder (Libraries),
-- net (Net), os.LookupEnv and strconv (Environment), the XML decoder and gzip (Web), YAML,
-- time.Format, time.ParseDuration and sort.Slice of the rules. What they are relied on for is a named
-- hypothesis (PlatformLaws, ScanLaws, DecodesMeta, EncodesShort, Sorts), which Tests modules meet
-- with concrete functions.
--
-- Not modelled: the HTML of the dashboard, the reads of /proc, the start of the program and its
-- timers and goroutines, log lines, floats (so the sizes of the configuration), and the random
-- text. The capacity of the disk's channel is left out: a send that waits stands in the queue. The
-- refreshes of a job run one after the other, in any order.
pub mod Base
pub mod Auth
pub mod Cache
pub mod Config
pub mod Dashboard
pub mod Discovery
pub mod Invalidation
pub mod Proxy
pub mod Revalidation
pub mod Startup
pub mod Stats

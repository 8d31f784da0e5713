-- ===== src/Lib.antt =====
-- xredis, a client library for Redis over go-redis: compare and swap, lease locks, fencing tokens,
-- rate limits, caches, pipelines and scans. The parts that run Lua scripts are modelled with the
-- scripts.
--
-- Redis itself and go-redis are not code of the repository. They are one parameter, the record
-- `Redis` of Redis.antt: a data set with a clock, the commands that the library sends, and what the
-- documentation of each command says of its reply and of the key's new entry (Redis/Data.antt has
-- the entries and replies, Redis/Fields.antt lemmas on hashes, Redis/More.antt the commands that
-- only commands.go sends). Examples/Memory.antt is a data set that obeys every law.
--
-- A method is an action on the `World` (Client.antt): the data set, a schedule that says for each
-- request what others do to the data set before it arrives and whether the request or its reply is
-- lost, and the measurements recorded so far. A script is one round trip: the server runs it alone.
-- A request whose reply is lost has run, and the caller gets an error. A schedule that is used up
-- delivers every request at once: the call is undisturbed.
--
-- The files, with the code that they model:
--
--   Prelude           numbers, tests, lists, options and the rulesets that the parts share
--   Errors            errors.go, and errors.Is; `panic` is a nil dereference, `stuck` no fuel
--   Exec              actions with a result: errors as values beside the state
--   Redis             the interface of the server, with the numbers of its Lua (Redis/Number.antt)
--   Time              time.go
--   Client            what the methods work on; metrics.go and metrics_attributes.go: what is recorded
--   Cas               cas.go: `compare_and_swap` is Client.CompareAndSwap, and so on
--   Lock              lock.go: `unlock_lock` is Lock.Unlock, `extend_lock` is Lock.Extend
--   Fenced            lock_fencing.go: `unlock_fenced` is FencedLock.Unlock, and so on
--   Versioned         cas_versioned.go: `swap_versioned` is VersionedStore.CompareAndSwap,
--                     `get_versioned` is Get, `delete_versioned` is CompareAndDelete
--   RateLimit         rate_limiter.go: the fixed window; Sliding the sliding window; Token the token
--                     bucket
--   Pipeline          pipeline.go, over a parameter that sends what is queued
--   Codec             codec.go
--   Reflect           reflect.go and raw_value.go, with Go's types as data
--   Scan              scan.go: `scan_all` is Client.ScanAll, and so on, over a scanner of pages
--   Cache             cache.go: `get_cached` is Cache.Get, `get_or_load_cached` is GetOrLoad
--   Commands          commands.go: `get_struct` is Client.GetStruct, and so on
--   Options           options.go: the runtime options, and the apply functions of config.go
--   Config            config.go and options.go: which configuration is accepted, and the addresses;
--                     Settings the fields that are copied unread
--   Observability     observability.go and logger.go, and in metrics.go the metrics that a process
--                     shares: `init_observability`, `run_shutdown`, `new_client_metrics`
--   Connect           client.go: `new_standalone_client` is NewClient, and so on
--   Examples          concrete inputs for each theorem
--
-- Locks stand on compare and delete (Unlock) and on a script of their own (Extend); fenced locks
-- hold a lease lock and delete through the same script; the rate limiter shares only the client.
-- A cache is Redis keys with a prefix; what singleflight makes of concurrent calls is an argument of
-- GetOrLoad, `Flight`, and the load itself an action like any other. Client/Counter.antt is what
-- fencing counters and rate limits have in common: a key that holds an integer which nobody takes
-- back.
--
-- A duration is an int64 of nanoseconds, here an integer; the product in msToDuration and the sum
-- in the expiration of a cache entry can pass 64 bits, and wrap around. The numbers of a
-- Lua script are doubles. Fencing tokens, the limit and the counter of a fixed window and the tokens
-- of a bucket are numbers of the record `LuaNumber`, whose laws doubles obey: a whole number is
-- rounded, in order, and exactly up to 2 ^ 53. What else a script calculates with is an integer
-- here: times and windows, since an int64 of nanoseconds has less than 2 ^ 53 milliseconds, and the
-- number of members of a sorted set. A fresh identifier (uuid.NewString) is an argument of the
-- method that draws it. Contexts and deadlines are losses of a request in the schedule. go-redis
-- may send a request again after a network error; here a request is sent once. The elapsed time
-- in a measurement is left out. The loop of scanNode runs on fuel, since it ends only when the
-- server's SCAN does: Scan.Ends shows that any fuel above a rank that each page lowers is enough.
-- All other loops are over lists.
--
-- Constructors and InitObservability work on a `Process` (Observability.antt): the connections that
-- go-redis has made, its native metrics, and the pointer to the shared metrics. Pointers are numbers
-- that are given out once. A client's `metrics` field in `Client` says whether its constructor found
-- shared metrics.
--
-- Not modelled: the programs under examples, and the tests.
pub mod Prelude
pub mod Errors
pub mod Exec
pub mod Redis
pub mod Time
pub mod Codec
pub mod Reflect
pub mod Client
pub mod Cas
pub mod Lock
pub mod Fenced
pub mod Versioned
pub mod RateLimit
pub mod Pipeline
pub mod Scan
pub mod Cache
pub mod Commands
pub mod Options
pub mod Config
pub mod Observability
pub mod Connect
pub mod Examples

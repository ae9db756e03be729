-- ===== src/Lib.antt =====
-- OpenAdSource: the ad server of server/ (Go), which answers GET /vast with a VAST document for the
-- best ad and GET /track with a pixel for what the player reports.
--
-- The parts and how they interact. The loader (server/internal/registry/loader.go) turns the rows
-- of the active ads into a snapshot: the ads, and a bitset of ad indices for each position, country
-- and device. A request is matched against the snapshot (server/internal/selection): three bitsets
-- are intersected, the members are filtered and ranked, and one of the best is drawn. The delivery
-- handler (server/internal/delivery/handler.go) asks the frequency cap and the campaign budget
-- (server/internal/capping, Lua scripts in Redis) whether the ad may be shown, tries up to five
-- candidates, resolves the media URL (server/internal/storage/resolver.go), signs the pixel URLs
-- (server/internal/tracking/sign.go) and builds the document (server/internal/vast). A player fires
-- the signed URLs at /track (server/internal/tracking/handler.go), which checks the signature and
-- counts each event of an impression. Both endpoints stand behind a limit per client
-- (server/internal/httpmw/ratelimit.go). A refresher reloads the snapshot
-- (server/internal/registry/refresher.go). A worker, under a lock that its replicas share, moves the
-- counters into daily rows of Postgres and completes the campaigns whose budget is spent
-- (server/internal/worker).
--
-- The files.
--   Common        numbers, slices, maps, texts and signed integers that the parts share
--   Redis         what the scripts and handlers rely on of Redis, a parameter
--   Registry      registry/bitset.go, ad.go, snapshot.go, loader.go and refresher.go; one child
--                 module each, with children for their lemmas
--   Selection     selection/select.go and rank.go: Select, SelectByID, topPriority, over fresh
--                 lists; Selection/Scratch, with pool.go, over the arrays that requests share
--   Capping       capping/budget.go (TryReserve) and frequency.go (TryConsume)
--   Tracking      tracking/events.go, sign.go, handler.go and userid.go, and the query of a URL, as
--                 url.ParseQuery reads it (Tracking/Query)
--   Delivery      delivery/handler.go: the loop of ServeVAST (serve_loop), the ?ad_id= path,
--                 serveAd (Delivery/Serve), and the request and its reply (Delivery/Handle)
--   Vast          vast/types.go and builder.go, as trees of elements
--   Storage       storage/resolver.go, and storage/s3.go (Storage/S3)
--   Targeting     targeting/device.go, ip.go (also Targeting/Proxies) and geo.go (Targeting/Geo)
--   Limit         httpmw/ratelimit.go
--   Http          httpmw/cors.go and metrics.go, and the routes of cmd/adserver/main.go
--   Worker        worker/lock.go (Lock), worker/drainer.go (Drain: the loops over the counters and
--                 the upsert; Reconcile: reconcileBudgets; Tick), and runTick of cmd/worker/main.go
--   Config        config/config.go
--   Database      db/pool.go
--   Commands      the starts of cmd/worker/main.go and cmd/adserver/main.go, and cmd/seed/main.go
--                 (Commands/Seed)
--   Tests         concrete instances, and the theorems at them
--
-- How state is modelled. A pointer to an ad of a snapshot is its index; a nil slice or a missing
-- key is none; a Go panic (an index out of range) is none of the operation's result. int32 and
-- int64 arithmetic that can overflow is written with its wrap-around; a word of a bitset is a
-- number below 2 ^ 64. Strings are lists of bytes. Redis is a record of commands over a type of
-- databases with laws on counters, held strings and their expiry; a script runs atomically, so
-- concurrent calls are a sequence of calls; each call names what becomes of its transport, a lost
-- answer included. Time passes between requests, and a key whose time is over is gone.
-- Clocks, random numbers, float64 arithmetic, SHA-256 and HMAC, hexadecimal text, compiled expressions
-- and IP prefixes are parameters.
--
-- The Postgres tables that the worker writes are functions from their keys; a statement either runs
-- or fails without an effect, and fails when its sums leave the INTEGER columns. The loop of Run is a
-- relation of its turns, with a predicate on what the database may answer.
--
-- Bounds and fuel. The loop of ServeVAST runs on the number of attempts left, which the source sets
-- to five, and the loop of PingWithRetry on its attempts. The walk over a word runs once for each of
-- its 64 bits at most, and the decimal text of an expiry has at most 19 digits, the most of an
-- int64. The counts of a drain stay below 2 ^ 60, far from the end of an int64, where a sum of the
-- seven counters of a row cannot wrap.
--
-- Not modelled. Postgres and its driver with the code that sqlc generates for it, the
-- AWS SDK, the MaxMind reader, the chi router, the printing of XML and the Prometheus counters are
-- third-party code, which the models take as parameters or leave out. The shutdown of the processes
-- is left out.
pub mod Common
pub mod Registry
pub mod Selection
pub mod Redis
pub mod Capping
pub mod Tracking
pub mod Delivery
pub mod Vast
pub mod Storage
pub mod Targeting
pub mod Limit
pub mod Http
pub mod Config
pub mod Database
pub mod Worker
pub mod Commands
pub mod Tests

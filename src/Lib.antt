-- ===== src/Lib.antt =====
-- Vaulthook: a gateway that receives webhooks from Stripe, GitHub and Shopify, stores them in
-- PostgreSQL, forwards them to the provider's destination with retries, and shows them on a live
-- dashboard. This library models its Go code and proves what the parts promise.
--
-- The parts and their files:
--   Model         internal/model: webhooks, providers, delivery statuses; results and errors of calls.
--   Database      the two tables of migrations/ with their constraints and the clock of NOW().
--   Ingest        internal/api/handler/{stripe,github,shopify}.go with ValidateSecret, Exists and
--                 InsertWebhook of internal/providers/*/service.go. `*_receive` is Receive; it
--                 changes the table, then the live feed (Send), then the workers' signal (Notify).
--   Providers     Headers, SetForwardHeaders of internal/providers/*/service.go; Service, Configure of
--                 internal/providers/service.go with configure of repository.go and Get and Set of
--                 cache.go; Cache, the lists of providers and the loads of the cache.
--   Crypto        internal/crypto/crypto.go.
--   Events        internal/events/repository.go (Repository) and the live feed of
--                 internal/events/service.go (Feed; Ticks and Conserve are its proofs).
--   Search        Validate of internal/model/search.go; Query, the WHERE clauses that lookup and filter
--                 of internal/events/repository.go assemble; Pages, Search of
--                 internal/events/service.go.
--   Worker        internal/worker: Repository (GetEvents, UpdateEvents), Forward (forwardEvent and the
--                 update values; Outcome, Attempts and Accepted are its proofs), Run (run, getNext; Drain, Settle,
--                 Delivery and Retries are its proofs), Start
--                 (start, startRetry, startReplay, startCleanup), Limiter (the Lua script and
--                 Allow), Cleanup (runCleanup), Pool.
--   Auth          internal/auth: refresh_token.go, service.go and middleware.go.
--   Health        internal/health: Resources (resources.go), Check (health.go and its handler).
--   Config        internal/config/envs.go; Connections, NewPG, NewLogger, NewCache and
--                 InitRedisCache of internal/config and internal/cache/cache.go.
--   App           New and Run of internal/app/app.go with the goroutines of internal/worker/pool.go.
--   Http          the dashboard: Body (DecodeBodyJSON of internal/helpers), Sessions
--                 (internal/api/handler/auth.go with internal/auth/cookie.go), ProviderHandler
--                 (provider.go), EventsHandler and Stream (events.go), and Routes, the table of
--                 internal/app/app.go with RegisterRoutes of the handlers.
--   Worker/Pool   internal/worker/pool.go: all workers beside each other, with the batches that they
--                 have in hand. Hands and Untouched are lemmas on the batches and the table, Claiming,
--                 Exclusive, Reached and Capacity are on what is in hand, Rounds on the halves of a round against `run`.
--   Mock          cmd/api-mock/main.go, the simulated destination: uni_webhook_handler,
--                 control_handler and the counters; Heals and Tally are its proofs.
--   System        all transactions on the events table in any order, as a step relation.
--   Prelude       lists, sorting, texts, integers and Boolean tests that the parts share.
--   Examples      concrete runs of the theorems.
--
-- How the model corresponds to the code. A function of the repositories takes the table and returns the
-- result and the table after it; a fault of the connection is an optional argument, under which the
-- statement changes nothing. A transaction is one step; rows that other transactions lock are a
-- predicate, which SKIP LOCKED leaves out. Times are nanoseconds (in Worker/Limiter milliseconds), uuids
-- are numbers, integers of the code that may be negative are ℤ, and time.Duration keeps its 64-bit wrap.
-- The limiter's floating-point numbers are whole thousandths. The goroutines of one batch write
-- disjoint slots and are a map over the batch; the loop of the feed, whose select picks any ready
-- case, is a step relation. No definition needs fuel. The worker's loop runs over a given list of rounds,
-- each with its clock and faults, since it may not end, and the loops of Worker/Start over the wakes
-- that select picks. A handler takes what it reads of the request and the state that it changes, and
-- returns a reply and the state; the stream of a browser is a loop over the turns of its select.
--
-- Parameters stand for code that is not in the repository: HMAC, AES-GCM (with the law that
-- opening undoes sealing), the JWT library (with the law that what it signed is valid until it
-- expires), Base64, Stripe's event constructor, the JSON decoder and the JSONB column, the HTTP
-- client, Redis, pgx, zerolog, random numbers, time.Parse, the text of a uuid, ILIKE, and
-- the ORDER BY of a search, which leaves the order of equal times open. To the receivers and the workers the
-- provider cache is a parameter.
--
-- Worker/Pool cuts the rounds of `run` at their transactions. What happens next is an argument: any
-- worker may claim or end its round, and any other part may run its transaction, in any order. The
-- deadlines of a round, 5, 10 and 5 seconds, bound how long a batch is in hand.
--
-- Not modelled: log entries, and the constructors that only keep their arguments. The router and its
-- middlewares, the tickers and the contexts' timeouts are library code; a timeout is a fault of the call that it cuts.
-- internal/testutil starts a database for the tests. The frontend is another language.
pub mod Prelude
pub mod Mock
pub mod App
pub mod Model
pub mod Database
pub mod Providers
pub mod Events
pub mod Worker
pub mod System
pub mod Search
pub mod Crypto
pub mod Ingest
pub mod Auth
pub mod Health
pub mod Http
pub mod Config
pub mod Examples

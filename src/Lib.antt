-- ===== src/Lib.antt =====
-- The health check library for Go services: a manager that runs registered checks, decides
-- liveness, readiness and startup from their results, and relays both to reporters.
--
-- How the program's parts interact. The application registers checkers and reporters with the
-- manager (manager/std/manager.go) and calls `Run`. `Run` starts the reporters, one goroutine for
-- each checker, and one goroutine that reads the reports of the checkers off a buffered channel.
-- For each report it stores the tally of the check, relays the result to the reporters, and
-- evaluates the three flags; a reporter is told a flag when it changed. The discovery client
-- (discovery/) fetches the manifests that the HTTP reporter serves and walks them as a graph.
--
-- What models what:
--   * Base: the tests, lists, keys and association lists that everything shares.
--   * SyncMap: internal/syncmap/map.go. A map is its contents; each method is atomic under its
--     lock.
--   * Errors, Check, Options, Reporter: errors.go, check.go, checker.go, and the interfaces of
--     health.go. A reporter is a record of operations with laws that its implementations fill.
--   * Cached: cached.go, with the two critical sections of `Check` apart from each other, and
--     Cached.Interleaving with any number of goroutines between them.
--   * Channel: Go's buffered channels.
--   * Manager: manager/std/manager.go. Its state is Manager.State, the flags and their setters
--     (`setLive`, `setReady`, `setStartup`) Manager.Flags, `processHealthCheck` Manager.Process,
--     `evaluateFitness` and its parts Manager.Fitness, the checkers' goroutines with `safeCheck`
--     Manager.Workers, and `AddCheck`, `AddReporter`, `Run` and `Stop` Manager.Lifecycle.
--   * Service: what the manager promises, as a machine of its own that hears reports, keeps the
--     latest of each check and judges itself by these.
--   * System: the running manager as a step relation over its goroutines, in any order. `Run` up
--     to the goroutine that it spawns last is one step, and so are its last lines, a call of
--     `Stop`, a check with the sending of its report, and the handling of one report: the runs of
--     this relation are those in which no two of these overlap.
--     System.Mirror to System.Latest relate it to Service. System.Restart follows a second `Run`.
--     Manager.Flags.Race cuts `setReady` finer, at its atomic actions, for two goroutines.
--   * Discovery: discovery/manifest.go in Discovery.Types, discovery/discover.go in
--     Discovery.Fetch (`FetchManifest` and the options) and Discovery.Traverse (`DiscoverGraph`),
--     discovery/render.go in Discovery.Render.
--   * Reporters: reporter/test, reporter/stdout, reporter/grpc, reporter/prometheus, reporter/otel
--     and reporter/httpserver, the last with its options, its middleware, its recovery from panics,
--     the lock of its cache, and its routes and the handler of its server in Reporters.Http.Server.
--     Reporters.Metrics has what the two metrics libraries offer.
--   * Checkers: the calls of `Check` under checker/command, tcp, dns, http and db, with their
--     constructors in a module each, and checker/redis with its exchange in Checkers.Redis.
--   * Text: the functions of Go's package strings on texts as lists of characters.
--   * Programs: the services of e2e/cmd and examples/basic. Programs.Services has what each
--     registers, Programs the rest of `main`, and the children what readiness means along their
--     dependencies, the gateway on the orders service and that one on the payments service.
--   * Examples: the theorems at concrete inputs.
--
-- Conventions. A Go map is a list of entries in the order of one iteration; theorems hold for
-- every such list. Instants and durations are integers of nanoseconds, without overflow. A
-- `uint32` that is only ever 0 or 1 is a number; the counters of the test reporter wrap around at
-- 2^32. A checker is what a call at each instant does: a result, nil or a panic. The only fuel is
-- that of the discovery loop; `cost` bounds it by the tree of dependencies down to the greatest
-- depth, also for circles.
--
-- Parameters. What the code asks of the outside world is an argument: the answers that the checkers
-- get, the connection to Redis, the HTTP client, contexts and the JSON decoder of the discovery,
-- the router and the time limit of net/http, the instruments and registries of the metrics
-- libraries, and how times and numbers are printed. The theorems on the metrics need gauges that
-- hold what was set last, counters that count and histograms that collect; the round trip of a
-- manifest needs a network that delivers and JSON that gives back what was encoded; what the server
-- of the HTTP reporter answers needs a router that prefers a pattern that is the path, and a time
-- limit that does not pass.
--
-- Not modelled: log lines (logger.go), the HTTP reporter's listener and its address, sleeping and
-- tickers (a goroutine may report at any time), runs in which `Run`, `Stop` and the handling of a
-- report overlap, beyond those of two calls of `setReady`, one of which may be that of `Stop`,
-- registrations after the first `Run` and a `Run` with another context in the step relation, and
-- JSON text (a body is the value that was encoded).
pub mod Base
pub mod SyncMap
pub mod Errors
pub mod Text
pub mod Check
pub mod Options
pub mod Cached
pub mod Channel
pub mod Reporter
pub mod Manager
pub mod Service
pub mod System
pub mod Discovery
pub mod Reporters
pub mod Checkers
pub mod Programs
pub mod Examples

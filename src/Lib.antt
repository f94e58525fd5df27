-- ===== src/Lib.antt =====
-- BalanceX is an HTTP load balancer. A request enters through an entry point, is matched against a
-- table of routes, passes the middlewares of its route and reaches a service; the service's router
-- picks a backend by a balancing algorithm from the servers that are healthy and whose circuit
-- breaker lets requests through, and the outcome goes to the metrics collector and to the breaker,
-- which the next choice reads. This library models those parts as functions on their state, in the
-- words of the code, and proves what makes them correct.
--
-- Config models config/config.go: Config the records, Config.Defaults `setDefaults`,
-- Config.Validate `validate` and `Load` after decoding. Routing models internal/router:
-- Routing.Matcher matcher.go, Routing.Rule the tokens and the lexer of rule.go, Routing.Rule.Args
-- `parseArgs` and `createMatcher`, Routing.Rule.Parser the parser, Routing.Table router.go;
-- Routing.Rule.Grammar is the grammar that the comments of rule.go give, as syntax trees with a
-- printer and a meaning.
--
-- Middleware models internal/middleware: Middleware.Chain `Chain` and Middleware.Builder `Builder`
-- of middleware.go, Middleware.Retry retry.go, Middleware.Breaker circuitbreaker.go,
-- Middleware.Timeout the choice in timeout.go, Middleware.Auth auth.go, Middleware.Cors cors.go,
-- Middleware.Headers headers.go, Middleware.RateLimit ratelimit.go and Middleware.AccessLog the
-- recorder and the line of accesslog.go. Http holds the calls of a handler on the writer of its
-- response. Balancer models internal/balancer: Balancer.Algorithm the interface `Algorithm`,
-- Balancer.RoundRobin, Balancer.LeastConn, Balancer.Weighted and Balancer.Canary its
-- implementations in roundrobin.go, leastconn.go, weighted.go and canary.go, Balancer.Router
-- `Router.Select` of router.go. Proxy models internal/proxy/proxy.go. Health.Breaker models
-- internal/health/breaker.go, Health.Monitor one check of monitor.go beside it, Metrics
-- internal/metrics/collector.go (Metrics.Recording the calls that change the collector,
-- Metrics.Percentile `computeP95`, Metrics.Dashboard `DashboardSnap`), Priority
-- internal/priority/classifier.go. Service models internal/service/manager.go, whose instances tie
-- router, collector, breakers and algorithm together (Service.Results the registry of the circuit-
-- breaker middleware, Service.Dashboard the aggregates and the import). App models `appState` of
-- cmd/loadbalancer/main.go, which builds services and routes from a configuration, sends requests
-- to them and reloads, with `ResolveMiddlewares` of internal/entrypoint/entrypoint.go; EntryPoint
-- models the rest of that file. Common holds what the parts share: lists, dictionaries, integers
-- and the interface of floating-point numbers.
--
-- State is passed explicitly: an operation takes the record of its component and returns the new
-- one, with its answer. A mutex makes calls on one object a sequence, so a history is a list of
-- calls. A Go map is an association list in which the first entry of a key counts; where the code
-- walks a map, the order of the walk is that of the list. A Go `int` is an integer of unbounded
-- size where it can be negative, a natural number where it counts; a number of seconds that
-- becomes a `time.Duration` wraps around as an int64 of nanoseconds does; the round-robin counter
-- is a 64-bit word with its wrap-around. Errors are values, and a nil dereference is a value of
-- its own in Balancer.Router. Clock readings, random draws, the package net, `sort.Slice`, the
-- text of a number and the decoded JSON are arguments. float64 is the interface Float64 with the
-- two laws of < that hold for every value, not a number included; fixed-point numbers implement it
-- for the runs.
--
-- A call of `Router.Select` is one step, so that no failure of another request comes between its
-- filter and its gate. A map of pointers holds no nil: at a JSON null there `setDefaults` panics.
-- A middleware that the builder makes is the call that makes it and the number of its making: two
-- routes share the state of a middleware, as the limiters of a rateLimit, when theirs have one
-- number. The backends answer with status codes that `WriteHeader` accepts.
--
-- Texts of rules are lists of bytes, so that the model agrees with the code on ASCII rules, where
-- bytes and runes are the same. The rule parser recurses on fuel, four units for each byte of the
-- rule and eight more: every token but the last takes a byte, and between two tokens the parser
-- goes through four functions at most. All other loops are structural.
--
-- Not modelled are the goroutines of the health monitor, the start-up of the program, the
-- listeners of its entry points, the watcher of the configuration file, certificates, the
-- dashboard's sockets and pages and the logger: they call the standard library, open files and
-- listeners and keep no state that the other parts read.
pub mod Common
pub mod Http
pub mod Health
pub mod Metrics
pub mod Priority
pub mod Balancer
pub mod Proxy
pub mod Config
pub mod Routing
pub mod Middleware
pub mod EntryPoint
pub mod Service
pub mod App

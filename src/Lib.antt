-- ===== src/Lib.antt =====
-- nebari-landing: the landing page's web API (the Go program of cmd/main.go and internal/).
--
-- The program shows each user the services of a Nebari deployment that the user may see. A watcher
-- turns NebariApp resources into `App` values, the service cache keeps one entry per app, a health
-- checker probes the services, the WebSocket hub fans events out to connected clients, and the API
-- decides who may see what.
--
-- Files and the code they model:
--   App          internal/app/app.go: the types that the other parts pass around.
--   Probe        internal/cache/service_cache.go, buildHealthCheckConfig and what it calls: which
--                probe an app's settings resolve to, and which targets are protected.
--   Cache        internal/cache/service_cache.go, the type ServiceCache: each method is a function
--                on the state (add, remove, get, get_all, update_health, and so on for Add, Remove, ...).
--   Access       internal/api/handlers.go, canAccessPolicy and its callers.
--   Auth         internal/auth/jwt_validator.go: the key set and its refresh (start_refresh for
--                startPublicKeysRefresh, and so on); Starting is initLoop, the first fetch.
--   Validation   internal/auth/jwt_validator.go: validate_token for ValidateToken.
--   Notification internal/notifications/store.go, the types Notification and Draft.
--   Hub          internal/websocket/hub.go: each method of Hub is a function on the state; subscribe walks
--                the messages, between which connections open and end.
--   Health       internal/health/checker.go and probe_runner.go: which probes run, what their replies
--                mean, and what is done with a result; Loops has probeLoop and Start, and
--                Serving the handler of the probe runner.
--   Grant        internal/watcher/watcher.go, crossNamespaceHealthCheckAllowed, referenceGrantAllows
--                and what the method toApp does with them.
--   Watcher      internal/watcher/watcher.go: Reading is toApp, and the handlers of events are functions
--                on the state (on_add for onAdd, and so on); Following, Cluster and Bystanders are about
--                their runs.
--   Keycloak     internal/keycloak/client.go: the credentials (Settings) and AddUserToGroup (Joining).
--   Redis        the server behind the four stores, a parameter, with what it documents.
--   Tickets, Pins, Requests, Notification.Store
--                internal/wsticket, pins, accessrequests and notifications, store.go: each method of a
--                Store is a function on the server's state.
--   Api          internal/api/handlers.go: who the caller is (extract, require_auth, require_admin),
--                and a child module for each group of routes (Services, Notices, Asking, Pinning,
--                Socket, Debug), with Routing for Routes, corsMiddleware and the options.
--   Docs         internal/api/openapi.go, cmd/genapicard and cmd/gendocs: the lists of operations, the
--                commands next to them, and the routes of the document.
--   Static       internal/staticservices/staticservices.go: Parse, validate and App.
--   Startup      cmd/main.go: the settings (Configuration), and main up to the listening server: the
--                probe runner alone, or the web API, whose Process holds the parts as they are connected.
--   Base         what the modules share; Tests: runs on concrete inputs.
-- The cache takes its probe config from Probe, and the hub takes `Principal` from Access and
-- `ServiceInfo` from Cache; its access policy is an argument, which the API fills with
-- `principal_can_access`. A handler of Api passes a `World` along: the validator, the cache, the
-- server of the stores, and what goes out; its calls of AddUserToGroup are a list. Startup builds
-- the cache from Static, the handler from Api and the outlets of Watcher and Health.
--
-- Conventions. A Go `int` that may be negative is the type ℤ of Base/Int, whose values are
-- compared, and multiplied only where seconds become a duration, which wraps around at 64 bits. A
-- text is a sequence of code points; `byte_length` is Go's `len`, the bytes of its UTF-8 form. A
-- map is an association list with distinct keys, in the order in which a loop visits it; no theorem
-- rests on that order. A method that holds the lock is one step. A pointer that may be nil is an
-- `Option`. A counter of 64 bits wraps around. Log lines are left out. Every loop is structural
-- recursion, and one that waits for tickers or events walks a list of what it meets; two take fuel.
-- `decimal` takes one unit per digit: the number plus one is enough, since a division by ten makes
-- the number smaller (`decimal_go-fuel`). `init_loop` takes one unit per attempt of the slow poll,
-- which has no bound of its own; `init_loop-IsSettled` says how much is enough.
--
-- Parameters: `TargetRules` (the label rules of k8s.io/apimachinery, net/url's parsers and the
-- verb %q) and `Codec` (encoding/json of the hub's frames); whether a write to a connection
-- succeeds; what the network answers to a probe (`Network`), and what the rest of the program does
-- while a probe is in flight (`during` of `probe_if_current`), and the way to the probe runner
-- (`Link`, `Outside`); what the token library reads from a token (`Token`), the base64 decoder,
-- the replies of Keycloak, and what happens while a request waits for a refresh (`Waiting`); the
-- decoder of the static entries; the accessors of unstructured objects (`Fields`, `Objects`) and
-- the listings of the Kubernetes API; the Redis server (`Redis`), of which the hypotheses
-- `IsDocumented` state the documented effect of each command, on success, and for the commands of
-- the tickets also on failure (`memory` of Tests/Memory satisfies them); encoding/json
-- (`TicketJson`, `GroupsJson`, `Libraries`) and the text forms of a time (`Clock`); fresh ids,
-- random bytes and the time of a call (`Moment`); gocloak (`Gocloak`), the environment,
-- `strings.EqualFold`, `strings.ToUpper`, `time.ParseDuration`, and what the start relies on
-- (`Surroundings`).
--
-- A pipeline of Redis commands that returns an error may have been executed in part, so nothing is
-- known of the server after it. A handler runs alone on its `World`: what other requests do to the
-- server between two of its commands is covered where a theorem speaks of a later state of it.
--
-- Not modelled: the informers that feed the watcher, the server's own settings and signals, the
-- layout of the documents, the frontend and the charts.
pub mod Access
pub mod Api
pub mod App
pub mod Auth
pub mod Base
pub mod Cache
pub mod Docs
pub mod Grant
pub mod Health
pub mod Hub
pub mod Keycloak
pub mod Notification
pub mod Pins
pub mod Probe
pub mod Redis
pub mod Requests
pub mod Startup
pub mod Static
pub mod Tests
pub mod Tickets
pub mod Validation
pub mod Watcher

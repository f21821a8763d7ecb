-- ===== src/Lib.antt =====
-- WhatsUpp: the hub that watches monitors and stores their results, the agents that push metrics to
-- it, and the HTTP API in front of it, as definitions that can be run and theorems about them.
--
-- A checker sends the result of a check to the hub. The hub stores it, runs the monitor's state
-- machine, opens or closes an incident on a transition, posts an alert and broadcasts the result.
-- A downsampler aggregates the stored results into coarser tiers and deletes old rows. A security
-- scan compares the open ports of a host with a baseline. An agent buffers the batches that it could
-- not push. The API limits login attempts, and keeps sessions.
--
--   Monitor       internal/hub/monitor.go: MonitorState, RecordResult; proofs in History
--   Incidents     internal/hub/incidents.go: HandleTransition
--   Store         internal/store/queries.go: the tables and the statements on them; Failures:
--                 CountConsecutiveFailures, which Hub/Failures compares with the monitor's state
--   Hub           internal/hub/hub.go: processResult, checkSSLExpiry, formatDuration,
--                 resolveStaleIncidents; Reload: New, ReloadConfig; Status: MonitorStatus
--   Alerting      internal/alerting/ntfy.go: mutes, reminder interval, Send*
--   Security      internal/checks/security.go: FilterByHysteresis, CompareBaseline,
--                 ApplyBaselineDrift
--   Scan          internal/hub/hub.go: processScanResult; Execute: executeSecurityScan,
--                 ScanSchedules; Accept: AcceptBaseline of internal/api/handlers.go
--   Listings      internal/api/handlers.go: parseTimeRange, ListIncidents, through
--                 internal/hub/store_adapter.go and internal/store/queries.go
--   Tiers         internal/store/queries.go, internal/hub/downsampler.go,
--                 internal/api/handlers.go: aggregation, retention, GetMonitorResults
--   AgentMetrics  internal/store/agent_metrics.go, internal/hub/downsampler.go: the tiers of agent
--                 metrics, GetHostMetrics (Queries)
--   Staleness     internal/hub/staleness.go: StalenessChecker.Check
--   Mutes         internal/store/queries.go, internal/api/handlers.go: the table of mutes, ToggleMute,
--                 and the loading of the mutes in Run of internal/hub/hub.go
--   Scheduler     internal/hub/scheduler.go: Start and runMonitor
--   Login         internal/api/auth.go: LoginRateLimiter
--   Users         internal/store/queries.go, internal/api/auth.go, handlers.go: the table of users,
--                 EnsureAdminUser, ChangePassword
--   Sessions      internal/api/auth.go, middleware.go: Login, Logout, NewAuthMiddleware
--   Ingest        internal/api/middleware.go, handlers.go, internal/store/agent_metrics.go:
--                 AgentKeyAuth, PostAgentMetrics without its broadcast
--   Sockets       internal/api/websocket.go: WSHub.Run as a state machine; Origin: CheckOrigin
--   Agent         internal/agent: Buffer (buffer.go), Backoff (backoff.go), Push (push.go),
--                 flushBuffer of agent.go; Collect: New, collect, collectAndPush and Run;
--                 Collectors: collect_net.go, collect_docker.go, collect_temp.go,
--                 collect_disk.go; Machine: collect_cpu.go, collect_mem.go, collect_battery.go
--   Checks        internal/checks: Check of http.go, dns.go, port.go and ping.go; Scanner:
--                 SecurityScanner.Scan of security.go, whose goroutines run in any order
--   Config        internal/config/config.go: applyDefaults, validate, the end of Load
--   ConfigFile    internal/api/handlers.go: GetConfig, PutConfig
--   Cron          internal/hub/cron.go: nextCronTime; Text and Fields: parseCronField
--   Examples      the theorems at concrete inputs
--
-- State is passed explicitly: a method that changes a struct returns the changed record, beside its
-- result. A Go map is a function from its keys; where the code depends on the order of a loop over a
-- map, that order is a parameter. A store statement fails or takes effect as a whole: the store
-- carries a function that says which of its calls fail, and an error is `none`. The clock is an
-- argument. Counters and times are natural numbers, and the settings of a configuration are signed:
-- times are in nanoseconds or Unix seconds, as the source has them there, and a difference that can
-- be negative is compared by addition.
--
-- Fuel: the search for the next run of a schedule has 527041 steps, one more than the minutes of 366
-- days, and its theorem shows that this reaches the limit of the source. The loop of a step in a cron
-- field has 2 ^ 64 rounds, which are enough where the addition does not overflow, since the value
-- grows. The loop that collapses the underscores of a sensor's name has as many rounds as the name has
-- characters, and each of them makes the name shorter. All other loops are structural.
--
-- Not modelled: network, YAML, JSON and SQL as text; the goroutines around the downsampler and the
-- WebSocket connections; the latencies of aggregated rows; the router, most adapters, backups and
-- the frontend. The answers of the network to a check, what gopsutil and Docker give, bcrypt and the
-- token generator, floats, the order and the average of metric values, percentages, the hub's answers
-- to an agent, the order in which the results of its collectors arrive, and the calendar of a time
-- zone are parameters.
mod Base
pub mod Monitor
pub mod Agent
pub mod Ingest
pub mod Alerting
pub mod Login
pub mod Users
pub mod Mutes
pub mod Scheduler
pub mod ConfigFile
pub mod AgentMetrics
pub mod Staleness
pub mod Sessions
pub mod Security
pub mod Store
pub mod Incidents
pub mod Hub
pub mod Scan
pub mod Checks
pub mod Listings
pub mod Config
pub mod Cron
pub mod Sockets
pub mod Tiers
pub mod Examples

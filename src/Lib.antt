-- ===== src/Lib.antt =====
-- The agent of nodeagentx: metrics and what keeps, sends and watches them, the host of its plugins,
-- the policy of its sandbox, its configuration and the reload of it, and the hub of a federation of
-- agents.
--
-- Grpc/Cache models internal/grpcclient/cache.go: the ring buffer that keeps metrics while the
-- platform cannot be reached. Grpc/Cache/Refine relates it to a bounded queue.
-- Grpc/Client models internal/grpcclient/client.go: SendMetrics, the replay of the cache after a
-- new connection (replayCache) and the shutdown (FlushAndStop). A send may fail; the outcomes are
-- the environment's, a list in the state `Net` with the messages that the stream has accepted (Send
-- returned nil); what the platform receives of them is not modelled.
-- Grpc/Link models connect, connectLoop, messageLoop, closeConn and Stop of client.go as a machine
-- that moves by events.
-- Grpc/Persist models internal/grpcclient/persist.go, the file of metrics; encoding/json is the
-- parameter `Json`, and how os.WriteFile and os.ReadFile end is the environment's.
-- Alerting models internal/alerting: Rules the life cycle of a rule (rules.go), Pattern the pattern
-- of conditions and Engine the engine (engine.go).
-- Checks models internal/checker: Types the results and their summary (types.go), Executor the run
-- of a request (executor.go, registry.go).
-- Federation models internal/federation: Group the groups of leaves by their labels (group.go),
-- Config the merged configuration (config_distributor.go), Hub the requests of leaves (server.go).
-- Federation/Canary models canary.go: which agents a stage of a rollout reaches.
-- Settings models internal/config: Sections and Root the configuration, Checks and Validate its
-- validation (config.go), Diff and Changes the comparison of two configurations (diff.go), Reload
-- the ConfigReloader (reload.go), and Reloaders the reloaders of collector/reload.go,
-- server/reload.go and reporter/reload.go in the order of internal/app/agent.go; Settings/Undone is
-- about the rollback. The parser of an update (viper), and reflect.DeepEqual are parameters.
-- Settings/Stops joins the reload with that of Collector/Scheduler.
-- Sandbox models internal/sandbox: Policy what may run (policy.go), Streamer how output is passed
-- on (output_streamer.go).
-- Tunnels models internal/gateway: gateway.go, tunnel/pool.go and tunnel/tunnel.go, the tunnels
-- between connections and the platform.
-- Server models internal/server: the middleware of middleware.go around any routes, the patterns of
-- handlers.go, and in Server/Moved what a reload of Settings/Reloaders does to them.
-- Collector/Metric models internal/collector/metric.go, the metrics that all of them handle, and
-- Collector/Buffer the bounded lists of buffer.go and accumulator.go. Collector/Tagger models the
-- processor of processors/tagger. Collector/Registry models registry.go and the interfaces of
-- plugins, and Collector/Scheduler scheduler.go: the goroutines and the channel of the collection,
-- what one collection does, and the reload of the pipeline. Plugins are parameters: a state with
-- its operations.
-- Plugins/Gateway models internal/pluginruntime/gateway.go and the unloading in watcher.go: the
-- plugin processes, their health checks and restarts, and the routing of tasks. Plugins/Names
-- models the names of plugins and tasks.
-- Prelude holds what the components share.
--
-- Loops are structural recursions; replay_loop and flush_loop have fuel, one round for each metric
-- of the cache, which is enough because a round takes at least one. Numbers are natural numbers
-- where the source uses non-negative ints; restart_backoff and next_backoff keep the wrap-around of
-- a 64-bit duration. exchange_sort has a round for each name, as the loop of the source has.
--
-- Floating point numbers, strconv.ParseFloat, time.ParseDuration, fmt.Sprintf, strings.ToLower and
-- the hash of a configuration are parameters of the definitions that use them.
--
-- Each operation of a component that holds a mutex is one step; the interleavings inside the
-- client's operations that release it, or that wait while they hold it, are not modelled, but for
-- Scheduler.Reload, whose wait with the mutex held is. Not modelled either: the network, TLS, the
-- processes and sockets of the operating system, JSON-RPC, and the inputs, outputs, other
-- processors, checkers and other components that no file here names.
mod Prelude
pub mod Alerting
pub mod Checks
pub mod Collector
pub mod Federation
pub mod Grpc
pub mod Plugins
pub mod Server
pub mod Settings
pub mod Sandbox
pub mod Tunnels
mod Tests

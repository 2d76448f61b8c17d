-- ===== src/Lib.antt =====
-- Navarch, a control plane that deploys Compose stacks as blue-green revisions over a fleet of nodes.
--
-- The program's parts. internal/parser turns a compose file into the specification of a stack,
-- which internal/spec holds. internal/store keeps deployments, environments, nodes and service
-- instances in Postgres and is the only writer of their states. internal/rollout runs loops over
-- the store: the scheduler places pending deployments on nodes, the controller advances them by the
-- reported states of their instances, promotes the healthy ones, syncs the router and tears the
-- superseded ones down, and the reaper ends previews and old secrets. The agent of each node
-- (internal/agent) drives Docker towards the desired instances, reports them, and destroys what a
-- tombstone names. internal/logbuf holds the output that agents deliver.
--
-- What models what.
--   Prelude      shared notation, lists, the integers of Go, sorting and database tables.
--   Spec         internal/spec/spec.go: the types by their Go names, ServiceNames, SwappableServices,
--                PinnedServices, IngressService, PeakMemoryBytes and PeakCPUMillis. Spec/Equal is
--                reflect.DeepEqual on services, as rejectPinnedDrift uses it.
--   Store        the rows of internal/store/models.go, the errors, and a transaction as a function
--                Db → Result (A × Db), where an error rolls back (`committed`).
--     Deployments  internal/store/deployments.go: createDeploymentTx, rejectPinnedDrift,
--                  UpdateDeploymentState, validTransitions, PromoteDeployment. The unique indexes of
--                  migrations/0001_init.up.sql and 0007 are the checks `breaks_index` and `other_live`.
--     Placement    internal/store/instances.go: insertInstancesTx, PlaceDeployment, DeleteInstances,
--                  InstanceStates, ReportInstance.
--     Nodes        internal/store/nodes.go: Heartbeat, DrainNode, UncordonNode,
--                  MarkStaleNodesUnreachable, ListReadyNodes, EnvironmentsHomedPerNode.
--     Homes        ReleaseEnvironmentHome of internal/store/instances.go, over DurableReasons, which is
--                  Spec/Durable.
--     Rollback     RollbackDeployment of internal/store/deployments.go, over RequiredSecrets, whose
--                  keys Rollback/Required is about.
--     Pinned       what rejectPinnedDrift of deployments.go keeps of the live revision.
--     History      the invariant of deployments and environments (`Inv`) and what each transaction does
--                  to it. Steps has the transactions that keep every deployment, Life adds expiries
--                  and the writes to other tables (`History`). An update of a state is taken at
--                  starting, healthy and failed: no caller but the tests of the repository asks
--                  UpdateDeploymentState for another.
--     Secrets      internal/store/secrets.go: SetSecret, DeleteSecret, PruneSecretVersions, and the
--                  versions that EncryptedSecretsForNode reads.
--     Previews     internal/store/previews.go: expireEnvironments with the rows that cascade, tombstones,
--                  ClaimPreviewsForExpiryWarning.
--     Logs         internal/store/logs.go: the requests to read a container's output.
--   Rollout      internal/rollout. Scheduler is scheduler.go (freeRatio, bestNode; Place has place,
--                commit and ScheduleOnce with ListPendingDeployments, of all organizations or one), over the float64 operations of
--                Floats. Controller is controller.go: advance and failureReason; Routes is
--                ListLiveRoutes and syncRouter; Loop is ReconcileOnce. Reaper is reaper.go.
--   Parser       internal/parser. Compose is the part of compose-go's project that is read; Preflight is
--                preflight.go; Extensions, Mounts and Convert are convertService; Graph is validateGraph
--                and findCycle; Parse is Parse. Convert/Accepts, Graph/Result and Parse/Valid say what
--                holds of what is accepted.
--   Agent        internal/agent/reconcile.go. Docker is the driver's interface; Health is observe and
--                mapHealth, Order is orderDesired, Ensure is ensure, Reconcile is Reconcile.
--   Logbuf       internal/logbuf/logbuf.go: Write, Read, Drop and Expire.
--   Tests        a small fleet and one run of each theorem on it.
--
-- How it is modelled. A UUID is its 128-bit number and a time a number of milliseconds; a row's new
-- id and the clocks are arguments. A table is a list of rows, a Go map the list of its pairs in the
-- order that a range loop visits them. CPUMillis and MemoryBytes of a specification are 64-bit
-- words that wrap at 2 ^ 64. Node capacities are integers; FreeMemoryBytes
-- wraps where an int64 difference would, for a capacity that is not negative. Loops are structural but for the two
-- depth-first searches: findCycle has fuel for as many nested visits as there are services, and
-- topoGroup for one more than its group has instances, since each nested visit marks a service that
-- was not marked. The transactions are taken one at a time, as the row locks and the unique indexes
-- order them. Parameters are the matches of SecretRefPattern, float64 (Rollout/Floats, with IEEE
-- 754 facts), the database's collation, the texts of fmt.Sprintf, sort.Slice on the parser's errors, the ids of instance rows, the
-- router's Sync, the YAML decoder and the loads of compose-go, and Docker: its answer to a call is
-- any function of the calls before it in the pass.
--
-- What is not modelled: failures of the connection to Postgres, log lines and mail, the creation of
-- previews, registration and keys of nodes, the Docker driver behind its interface, the agent's
-- polling loop, the router's file, the HTTP API, the command line and the web pages.
pub mod Prelude
pub mod Spec
pub mod Store
pub mod Rollout
pub mod Logbuf
pub mod Tests
pub mod Agent
pub mod Parser

-- ===== src/Lib.antt =====
-- The alert pipeline of the dashboard: which servers are evaluated, with which rules, what an
-- evaluation decides, and what is kept of it.
--
-- DirtyQueue (internal/store/alert/dirty_queue.go) keeps the servers that have changed. `mark`
-- enters a server, `next_round` is one round of the loop of `next`, `finish` ends an evaluation.
-- Each method runs under the mutex, so it takes the queue and gives the new one; the channel
-- `wakeup` of capacity one is a flag. Service has the calls in any order, Exclusion and Lasting
-- what they keep, Wakeup the workers of runEvalWorker in internal/alert/service_eval.go, asleep,
-- awake or busy, in every interleaving.
--
-- NodeView (internal/metrics/front_dto.go) has the fields of a node's view that alerts read.
-- AlertSpec (internal/alertspec/catalog.go) has the metrics (Extract) and the rules (Rules).
--
-- Alert (internal/alert) is the service: Compile is compiler.go, Runtime the states and helpers of
-- runtime.go, Evaluate its EvaluateServer, Process is processServer of service_eval.go, Saving is
-- saveRuntimeState of state.go, and Retry has the delays of service.go and failNotification of
-- service_notify.go. Environment is what processServer asks of the store and of the cache of
-- notification targets. A round of a worker takes a server from the queue, compiles the stored
-- rules, filters them by the server's mounts, evaluates them on the view, writes the close and open
-- transitions, refreshes heartbeats, saves the states, and finishes the server in the queue.
--
-- NodeTags (internal/nodetags) reads the tags of a node. NodeSession (internal/nodesession/hub.go)
-- has the sessions of nodes: Registry what holds of the hub, Calls and Runs its methods in any
-- order, Capacity how much a session holds. `current` looks at the hub at three moments.
--
-- Outbox (internal/store/alert/alert_notifications.go, notify_channels.go, alert_settings.go) has
-- the tables of notifications, channels and settings. Enqueue inserts under dedupe keys, Take takes
-- the next row or a batch, Sending updates a row that is being sent, Deliver ends a delivery,
-- Failures one that failed, Channels and Settings change channels with what waits for them. A
-- statement of SQL is a function on the list of rows; a method that runs as a transaction gives the
-- tables after the commit or an error, which leaves them as they were. Rows is the specification of
-- the life of a row; Lifecycle, Settling, Failing, Completing, Waiting, Taking, Joining, Batching
-- and Entering show that each method keeps to it; Calls and Histories put the methods in any order.
-- Ready, Ordering and Sequence are about what is taken first, Built and Keys about dedupe keys,
-- Errors and Timely about results late and in time, Circuit about blocked channels. Retry (above)
-- decides which of these methods a failed delivery calls.
--
-- AlertEvents (internal/store/alert/alert_events.go) writes the events of alerts, each together
-- with the notifications of its transition in the outbox. Alert.Process asks its methods through
-- the record Alert.Environment.Env.
--
-- StoredRules (internal/store/alert/alert_rules.go, alert_mounts.go, alert_tasks.go) has the tables
-- of rules, mounts and control tasks. Patch creates, changes and deletes rules, with the next
-- generation and the task that announces it, Fields has the values that a patch gives; Mounts and
-- Queue are the methods of the two other files. Generations and Changing are about what a change
-- keeps, Tasks about what is enqueued, Stale about the opens that AlertEvents refuses afterwards,
-- Patched, Answers and Deleting about the whole methods. AlertSpec.Rules normalizes the rules.
--
-- Names are the source's in snake_case. Floats are a parameter, the record Shared.Float of what the
-- code does with a float64; no law of theirs is assumed. Integers of 64 bits are ℤ, with the
-- wrap-around written out where the code multiplies durations or counts generations
-- (Shared.Int.wrap64). Times are nanoseconds since Go's zero time; a difference of times saturates
-- as in Go (Shared.Time.sub). Maps are association lists, ranged over in their order. Loops are
-- structural; the inner loop of `next` runs on the number of entries that are left, which is
-- exactly what it can pass.
--
-- The cipher of channel configurations and the length of a joined message in UTF-16 are parameters
-- of the outbox; which servers there are is one of the mounts, and the distance of floats one of
-- patches. The counters of the outbox end at the range of an INTEGER column, where the database
-- reports an error. Of the schema (db/migrations) the model has the unique indexes, the references
-- of notifications and mounts, the type notify_type and that generations are positive.
--
-- Not modelled: logging, contexts, message texts, errors of the connection to the database, widths
-- of text columns, the other constraints of the schema, the SQL of the other stores, HTTP, and the
-- other services of the repository.
mod Shared
pub mod DirtyQueue
pub mod NodeView
pub mod AlertSpec
pub mod Alert
pub mod NodeTags
pub mod Outbox
pub mod StoredRules
pub mod AlertEvents
pub mod NodeSession

-- ===== src/Lib.antt =====
-- WebPerf self-hosted: the control plane, the execution queue, its workers, the scheduler, the reports and
-- the URL policy.
--
-- The API keeps the durable queue of executions in the table `execution_jobs` (apps/api/src/repository.ts).
-- Executors (apps/executor/src/runner.ts) claim jobs under a lease, renew it while they work, and
-- complete or fail the job; what ends without a result is written to the resource that the job is for.
-- The scheduler (packages/domain-core/src/scheduler-loop.ts) asks the API for the checks that are due.
-- The API's handlers (apps/api/src/index.ts) write properties, route sets and check profiles, and turn a
-- run of a profile into jobs and an execution of the queue.
-- packages/report-core/src/index.ts derives the status of jobs and compares runs, and
-- packages/domain-core/src/index.ts says which URLs may be measured.
--
-- Base: the shared names; Boolean tests, lists, text lengths in UTF-16 units, and JavaScript's Map and
--   Set as association lists and lists in the order of insertion.
-- Report: packages/report-core. Report/Status is summarizeTargets and deriveJobStatus, Report/Monitor
--   evaluateMonitorTargets and summarizeCheckProfileRunReport, Report/Comparison
--   buildCheckProfileComparison with classifyRunDelta (Delta) and summarizeRunComparison (Summary).
--   The percentage of a latency change is a parameter, since it is floating point. Report/Csv is
--   buildCheckProfileReportCsv, where the text of a timestamp is a parameter, with a reader of such
--   texts after RFC 4180 (Reader).
-- Queue: the execution part of repository.ts. Queue/Types has the row, the job and the database,
--   Queue/Schema the schemas of packages/contracts/src/execution.ts, Queue/Statements the prepared SQL
--   statements as functions on the list of rows, Queue/Sync the writes of resources and
--   syncTerminalExecutionResource, Queue/Enqueue and Queue/Lease one function for each operation, and
--   Queue/Run every call as data with the databases that calls lead to. Queue/Transition is the life
--   cycle of a row as a step relation, which all calls are shown to follow.
-- Executor: runner.ts. Executor/Heartbeat is renewLeaseUntilStopped over the beats that take place,
--   Executor/Attempt processExecutionJob as the calls of the API that it makes, for each course that
--   the handler, the signals and the API may take.
-- Scheduler: runScheduler over the rounds that take place, and calculateSchedulerPollDelay.
-- Domain: packages/domain-core/src/index.ts. Domain/Url is validateMeasurementUrl; the parser of URLs and
--   the reading of labels as numbers, which are the platform's, are parameters. Domain/Hex is the
--   hexadecimal codec and createHmacSha256 and verifyHmacSha256, with crypto.subtle's sign and verify as
--   parameters. Domain/Paging is what applyListQuery does with the items that its filter leaves.
-- Control: the handlers of apps/api/src/index.ts that write entities, over the entity store of
--   repository.ts. Control/Types has the entities and payloads of packages/contracts/src/public-api.ts,
--   Control/Store the tables, Control/Inputs and Control/ProfileInputs what the handlers make of a
--   payload, Control/Handlers the requests on properties and route sets, Control/Profiles those on check
--   profiles, Control/Jobs the jobs of a run and their execution, which goes through Queue, Control/Runs
--   the runs by hand and the scheduled dispatch, and Control/Requests every request as data. trim,
--   toLowerCase, the parsing of URLs and random ids are parameters; a payload is what its schema accepts, or
--   none. A request is handled as a whole: what a body does that comes late, after other requests, is only
--   tried in Tests/Races. A row that does not decode keeps no columns, so it is neither pruned nor deleted
--   with its profile. Control/Integrity has what holds between the tables.
-- Redaction: which names apps/api/src/redaction.ts takes as sensitive, with the white space and letters
--   of ASCII.
-- Outbound: apps/executor/src/outbound-http.ts (Words, Policy and Resolve) and
--   apps/browser-audit-lighthouse/src/network-policy.ts (Browser), which say where requests may go. isIP and
--   BlockList.check are parameters, and so is what a lookup comes to.
-- Tests: sample data, runs of the functions, and each result applied to it.
--
-- Times are numbers of milliseconds; ISO timestamps of one format compare as these do. A stored payload
-- or error is `sealed`, with the value that it decodes to, or `corrupt`. A transaction is a function
-- on the database that throws or returns; SQLite runs one at a time, so calls are a sequence. Logging
-- is left out. `doublings` takes the maximum backoff as its fuel: a doubled positive number passes it
-- in fewer steps. Not modelled: HTTP, encryption, files and browsers, which are libraries and
-- platform calls, the metrics of the queue, and the requests on single jobs, audits and artifacts.
pub mod Base
pub mod Report
pub mod Queue
pub mod Executor
pub mod Scheduler
pub mod Domain
pub mod Redaction
pub mod Control
pub mod Outbound
mod Tests

-- ===== src/Lib.antt =====
-- QASE runs quality-assurance sessions: matrix runs of a test case over many devices and browsers,
-- each item of a run executed by an agent session, on devices whose use is managed.
--
-- Matrix: the items of a run and the writes to them (server/matrixService.js), the life of a run
--   and the workers that execute its items (server/matrixOrchestrator.js), which question of an
--   unattended session is answered (server/matrixQuestionPolicy.js), and the coverage report.
--   - Matrix/Item: the record of an item and `updateItem`, with the backend's write; Matrix/Honest and
--     Matrix/Bulk have what it keeps, and what a loop of such writes comes to.
--   - Matrix/Lifecycle: `cancel`, `retryItem` and the body of the loop of `resumeRecovery`.
--   - Matrix/Execute: `executeRun` and `statusCounts`. What the workers write meanwhile is an
--     argument, any function on the run.
--   - Matrix/Drain: `claim` and the admission gate (`acquireSlot`, `releaseSlot`) of `drainQueued`. The
--     workers of all runs are a step relation on the gate, so their interleaving is arbitrary.
--   - Matrix/Policy: `deriveQuestionPolicy` and `autoAnswerFor`, for any regular expressions.
--   - Matrix/Launch: `executeItem` of one item. What the hooks, the services and the polling of the
--     session answer or throw is a record of arguments, `World`.
--   - Matrix/Coverage: the report of server/matrixCoverage.js, for any regular expressions on the
--     recorded reasons.
--   - Matrix/Wait: `waitForSession`, over the polls of the store. Its fuel is one poll for each two seconds of the
--     time-out and two more, and it is shown to be enough where two polls are two seconds apart.
-- Store: server/store.js. Store/Timing has the times of a session and its active duration, Store/Timing/Clock the
--   stopwatch that they are compared with, Store/Feed the activity feed, Store/Findings the status of findings,
--   Store/Findings/Backlog the bug backlog, and Store/Boot what a restart makes of a session, on which Resume works.
-- Secrets: server/secrets.js, the redactor (Secrets/Redact) and the vault in memory and on disk (Secrets/Vault), whose
--   records hold the entries in the order of the properties of an object (Secrets/Vault/Order).
-- Queue: server/postgres/executionQueue.js, the jobs as rows and each method as one transaction on them. Worker:
--   server/distributedExecution.js, a worker of that queue on one job, as a machine. Its events are the interval of
--   the heartbeat and the answers to its calls, in any order; Worker has the heartbeat, Worker/Turns the rest of
--   `runOnce`. The loop of the worker and `markExhausted` are not modelled.
-- Keepalive: the timer of server/keepalive.js. Picker: public/matrixPickerModel.js and the selection of
--   public/qaConfigMatrix.js, the configurations that a launch selects.
-- Device: server/deviceRuntime/manager.js. Device/Types has the state and the contract of a
--   provider, Device/Level `providerForLevel` and `maximumLevelFor`, Device/Manager
--   `requestSession`, `completeSession` and `cancelSession`, and Device/Calls sequences of calls. A
--   provider is a record of functions that may answer anything or throw. A call runs to its end
--   before the next begins.
-- Throttle: server/authThrottle.js as a whole.
-- Creation: server/matrixService.js, `create`: `resolveDefaultProfiles`, `expandMatrixItems` and the pinned
--   configurations of a launch, up to the items. Support has server/browserSupportResolution.js, which says if a
--   browser can be executed.
-- Pipeline: server/matrixService.js, `createParentRun`, `createBatch` and the view of a parent. `createBatch` is two
--   functions, before and after its waits, so that two calls may overlap.
-- Resume: server/runResume.js, `isResumable` and `resumeAll`; Resume/Budget has the life of the sessions over boots.
-- Bugs: server/bugService.js, the validation and the numbers of bug records.
-- Browser: server/browserPolicy.js, private addresses (Browser/Private) and the consent to destructive actions
--   (Browser/Consent).
-- Budget: the guards of server/sqaBrowserBudget.js and server/securityPayloadBudget.js; Budget/Bound counts over the
--   feed of Store/Feed.
-- Invites: server/invites.js; Invites/Code has the encoding of a code, Invites/Single and Invites/Admission
--   sequences of calls. Operations: server/operations.js, the guard of the HTTP server as a step relation, and
--   its counters. Batch: public/bulkProgress.js, the progress of a bulk run; Batch/Tracker has its timer.
-- Heartbeat: `runOnce`, `delay` and `getState` of server/cellHeartbeat.js.
-- Sqa: quality-assurance assessments. Sqa/Scope has `resolveSqaScope` of server/sqaCatalog.js, and
--   for server/sqaAssessment.js Sqa/Observation has the normalization and the checks of the
--   observations, Sqa/Gates the counts, gates and risk, and Sqa/Assessment `evaluateSqaAssessment`.
--   A percentage is the two numbers it is made of, before rounding.
-- Common: what these share. A `Map` of JavaScript is an association list in insertion order, an
--   exception a value of `Result`. Examples has concrete runs.
--
-- Times are texts where the code only stores them, and numbers where it compares them. Loops are structural
-- recursion on the list that they go through; the answer loop of `executeItem` recurs on how many
-- more answers the item may have, which is what bounds the loop in the code; only the polling loop of Matrix/Wait has fuel.
--
-- Not modelled: the HTTP routes, the agent and the browser bridge, the file and SQL stores but for the parts named above, the data
-- tables of the catalogs, the user interface but for the progress of a bulk run and the matrix picker, the scripts, and the emission of events.
pub mod Common
pub mod Keepalive
pub mod Matrix
pub mod Device
pub mod Throttle
pub mod Worker
pub mod Invites
pub mod Batch
pub mod Operations
pub mod Support
pub mod Creation
pub mod Picker
pub mod Pipeline
pub mod Queue
pub mod Resume
pub mod Bugs
pub mod Store
pub mod Browser
pub mod Budget
pub mod Heartbeat
pub mod Secrets
pub mod Sqa
pub mod Examples

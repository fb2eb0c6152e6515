-- ===== src/Lib.antt =====
-- A model of the pipeline orchestrator: a queue of jobs in PostgreSQL, workers that claim and run
-- them, deploys under advisory locks, and an outbox of notifications.
--
-- The API creates runs (`pipeline_runs`) and their jobs (`jobs`). Workers claim jobs with one
-- UPDATE, run each as a shell command, and report how it ended; a job whose worker stopped beating is
-- reclaimed. A trigger derives a run's status from its jobs. A deploy job holds a lock of its
-- environment. A worker with no job drains the outbox.
--
-- - `Database`: the entities of `src/database/entities`, and the trigger
--   `sync_pipeline_run_status_from_jobs` of `src/database/database-seed.service.ts` (`sync_run`).
--   Tables are lists of rows. A uuid is a number that the database makes; a time is a number of
--   microseconds. A statement is a function of the tables, atomic as PostgreSQL makes it where the
--   rows that it writes are locked; NOW() is an argument.
-- - `JobQueue`: `src/queue/job-queue.service.ts`, one function per method (`insert_new_job` for
--   `insertNewJob`, and so on). In `claim_query` the rows that other transactions hold are an
--   argument, for SKIP LOCKED. `calls` is a history of calls by workers and API in any order.
--   A history keeps the protocol where the ids of new jobs are fresh, no job is inserted before one of
--   its run that is running, and no failure is reported of a job that has ended.
-- - `Outbox`: `src/queue/webhook-queue.service.ts`. What `fetch` answers, what others do while
--   the POST is under way, and how the reports end are arguments of `process_one_webhook`. `Calls` has
--   the histories of the single statements, by any number of processes.
-- - `Locks`: `src/locks/deployment-lock.service.ts`. `System` has the deploys of all the workers, as
--   steps of `tryAcquire` and of the `release` that it returns, in which any query may throw. The hash
--   of the lock's key is an argument. `Pool` has the service's pool.
-- - `Executor`: `src/worker/job-executor.service.ts`: the line buffer, the guess of the environment, and
--   `execute` as the calls that it makes in their order, from what the services and the child process
--   answer. A child need not end; then the call waits. Text is a list of code units; a chunk of output
--   is its decoded text there, and `stream_output` has the bytes, with the decoder as an argument.
-- - `Worker`: `runLoop` of `src/worker/worker.service.ts`, in turns: a claim, the run of its job with the
--   heartbeats of `execute` and the calls of others meanwhile, and the report; or the outbox. A
--   statement may fail before or after it took effect. `Claimer` has `claimNextOrWait`, `Heartbeat` the
--   timer of `src/worker/heartbeat.service.ts`, and `Fleet` all the workers and the API as one system of
--   steps: claims, whose answers may be lost, heartbeats, reports, deaths, reclaims and inserts.
-- - `Runs`: `triggerRun` of `src/api/runs/runs.service.ts`, with `createPipelineRun` of
--   `src/api/pipelines/pipelines.service.ts`. Which of its INSERTs take effect, and in which order, is an
--   argument (`Inserts`). `Steps` describes the rows by the indices of the config. `Queries` has its
--   queries, and the answers of `src/api/runs/runs.controller.ts`.
-- - `Pipelines`: `src/api/pipelines`: the methods of the service on the tables that runs and jobs refer
--   to, and `handle`, which answers the requests to the controller and `POST /runs`. A body may have
--   any column, the id included. The runs that deployment locks refer to are an argument. `Seed` has
--   `seedPipelinesIfEmpty` of `src/database/database-seed.service.ts`.
-- - `Webhooks`: `src/api/webhooks/git-webhook.controller.ts`, on JSON values.
-- - `Streaming`: `src/streaming`: `appendLog` with the trigger `job_logs_notify`, where NOTIFY refuses
--   a payload of 8000 bytes or more, the listening client with its restarts, and the streams, which begin when a client subscribes. How
--   JSON writes and reads an event is an argument. PostgreSQL counts a text in characters, so a text
--   is a list of them here.
-- - `Dashboard`: `src/api/dashboard/dashboard.service.ts`, with the materialized view
--   `pipeline_stats` of `src/database/database-seed.service.ts`. The database's order of texts is an
--   argument.
-- - `Startup`: what the services do to the database when their modules begin: `onModuleInit` of
--   `src/database/database-seed.service.ts`, and `ensureNotifyTrigger` of
--   `src/streaming/log-stream.service.ts`. A statement may throw. The text of a function or trigger
--   is modelled where it runs; here it is there or not.
-- - `LoadTests`: `load-testing/scripts`: the four scripts as clients of any server, and the application
--   as one (`Server`), with its clock, where all INSERTs go through. k6 is a library: its `http` is the server, and what it measures
--   a list of samples. A body has what the scripts read of it.
-- - `Common`: lists, tests, tables with keys, integers, text and JSON values.
-- - `Tests`: the models on small inputs.
--
-- The services read index 0 of what the database driver answers to an UPDATE … RETURNING. The driver is
-- not of this repository, so what stands there is an argument (`Database.Driver`), in the two shapes
-- that a driver may give: the rows, or the rows and their number, as TypeORM 0.3.28 of the lock file
-- gives them.
--
-- Every function is total by recursion on its lists; none needs fuel. The worker's loop, its drain of
-- the outbox and `claimNextOrWait`, which may go on for ever, run over a list of what they meet, of any
-- length. The polls of the load tests are as many as their source has.
--
-- Not modelled: the hooks of `WorkerService`, which start and abort its loop, and the id of a worker; a
-- config of another shape than its DTO; a `pool.connect` or a LISTEN of the log stream that throws; the limits on the length of
-- columns other than `log_level`; the number of virtual users, the thresholds and the requests in
-- parallel of the load tests, which are k6's; and the wiring of the application.

pub mod Common
pub mod Dashboard
pub mod Database
pub mod Executor
pub mod JobQueue
pub mod LoadTests
pub mod Locks
pub mod Outbox
pub mod Pipelines
pub mod Runs
pub mod Startup
pub mod Streaming
pub mod Tests
pub mod Webhooks
pub mod Worker

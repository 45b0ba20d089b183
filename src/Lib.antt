-- ===== src/Lib.antt =====
-- A model of the office multi-agent service (a Python web service).
--
-- The program answers requests of a company's employees. Language-model agents plan and delegate the
-- work, domain services do it, a person approves what leaves the company, and a worker process runs
-- the long tasks. Every call carries a RequestContext with the tenant, the operator and the scopes.
--
-- The files, and the code that they model:
--   Base, Base/*          names of the libraries passed on; lists, dicts (association lists in insertion
--                         order), texts, signed integers, equality tests; exceptions as values and
--                         actions that may raise. What was written before a raise stays written.
--   Value                 dynamic values: dict[str, object], list[object], object.
--   Context, Context/*    app/schemas/assistant.py (RequestContext), app/services/permissions.py and
--                         app/services/audit.py.
--   Approvals, Approvals/*
--                         app/services/approvals.py: one record for a tenant and a target.
--   Idempotency, Idempotency/*
--                         app/services/idempotency.py: the first result of an operation stays.
--   SensitiveData         app/services/sensitive_data.py: the guard on text that leaves the company.
--   Tasks, Tasks/*        app/services/runtime_state.py: BackgroundTask, the in-memory repository and
--                         BackgroundTaskService. A task is a mutable object that the repository, the
--                         worker and the callers share, so the objects lie on a heap (Tasks/Object,
--                         Tasks/Repository). Tasks/Lifecycle lists the calls, Tasks/History follows
--                         sequences of them.
--   Worker, Worker/*      app/services/task_worker.py: AsyncTaskWorker.run_once over the task service, and
--                         the transcription handler with its polling loop (Worker/Polling).
--   Cache                 scoped_cache_key of app/services/cache.py: the keys of what is cached.
--   Memories, Memories/*  app/services/runtime_state.py: confirmed memories behind a cache, and schedules.
--   Uploads               FileMetadata of app/services/files.py, which Files and Sql share.
--   Files, Files/*        app/services/files.py: uploads, who reaches them, and their deletion, over the
--                         disk and, if there is one, the repository of Sql/Files.
--   Events                WorkEvent of app/schemas/workflows.py.
--   Delivery              what the services that send something have in common: calls, deliveries, and a
--                         record that allows one. Reports/History and Meetings/History fill it.
--   Reports, Reports/*    app/domain/reports.py over app/repositories/reports.py: Draft builds a report
--                         from events, Service generates, reviews and submits it, over the approvals of
--                         the report itself, the idempotency records and the audit trail.
--   Meetings, Meetings/*  app/domain/meeting_minutes.py over app/repositories/meetings.py, in the same way.
--   Collector, Collector/*
--                         app/services/work_events.py: four sources of events, of which one reads the
--                         minutes of Meetings; the collection is what Reports turns into a draft.
--   Sql, Sql/*            app/repositories/runtime.py, persistence.py, meetings.py, files.py, artifacts.py
--                         and the models of app/models/persistence.py: the repositories of the running
--                         service, each as a table of rows (Sql/Rows) under the same operations as the
--                         in-memory one. The Refines modules compare the two; Sql/Tasks/Copies says where
--                         they differ, because a worker holds a copy of a row and no shared object.
--   Knowledge, Knowledge/*
--                         app/domain/knowledge.py over app/connectors/cached.py.
--   Orchestration, Orchestration/*
--                         app/orchestration: Intent (intent.py), Planning (middleware.py), Approval
--                         (worker_graphs.py and supervisor.py), Graphs (worker_graphs.py), whose nodes call
--                         Reports, Meetings, Collector and Tasks, and Supervisor and Replies
--                         (supervisor.py), the runtime around the graph of agents, which reads Memories.
--   Security, Security/*  app/security/sso.py: the delegated token of a request.
--   Api, Api/*            app/api/routes.py: Assistant (invoke and resume, over Approvals), Records (reports
--                         and minutes), Tasks, Uploads (files and the knowledge base), Threads (the
--                         routes over the supervisor), and the routes that send. A handled exception is a
--                         status, any other one is 500. Api/Gateway is what stands before the routes
--                         (app/middleware), Api/Startup the start of app/main.py with its settings.
--   Tests, Tests/*        sample inputs, and the theorems at them.
--
-- Correspondence. Names are the code's. A method is a function from the state before to its result,
-- ok or err, and the state after. A frozen dataclass or a model is a record; a dict is an association
-- list; an absent value is none. Fields of type float with bounds 0 and 1 are whole multiples of
-- 2 ^ -1074, which every double is, so comparisons are exact (Events). Times are microseconds.
--
-- Parameters. What the repository does not implement is an argument: connectors, what a regular
-- expression finds, pydantic's validation and dumps, json.dumps and SHA-256, the clock, uuid4, str.lower,
-- the language model's parse of a task, and the graph runtime behind the supervisor and the assistant's
-- routes. Hypotheses on them are binders of the theorem that uses them: of json.dumps, that different
-- lists of texts are written differently; of SHA-256, only that the keys that the theorem speaks of do not
-- collide.
--
-- Loops. Loops over lists are structural. The polling loop of the worker runs without a bound in the
-- code, under asyncio.timeout; the model counts the rounds that start before the timeout, and any number
-- of them is allowed.
--
-- Interleaving. The calls of the task service are atomic steps in any order, and a handler may be
-- interleaved with other callers at its awaits. `update` is among them with a status that fits the task. The methods of reports, meetings, the collector and the
-- routes run without interruption; two overlapping submissions of one report are not modelled. A method
-- of an SQL repository is one transaction; the rows that others have locked, which a claim skips, are
-- an argument of the claim. A query without an order gives the rows in the order of their insertion,
-- and the ids that uuid4 gives to idempotency and approval records are new.
--
-- Not modelled: the Redis client, artifacts, the network connectors and their doubles, the configuration
-- of the third-party agents, and opening or closing connections, which are I/O or third-party calls;
-- mail polishing and data analysis, which are outside the approval and task flows.
pub mod Base
pub mod Value
pub mod Context
pub mod Approvals
pub mod Idempotency
pub mod SensitiveData
pub mod Tasks
pub mod Worker
pub mod Events
pub mod Cache
pub mod Memories
pub mod Uploads
pub mod Files
pub mod Delivery
pub mod Reports
pub mod Meetings
pub mod Collector
pub mod Sql
pub mod Knowledge
pub mod Orchestration
pub mod Security
pub mod Api
pub mod Tests

-- ===== src/Lib.antt =====
-- The agent service of FactoryOps (services/agent-service/src/factoryops_agent_service).
--
-- Kafka records about quality incidents enter an inbox and start Agent Runs; a Run, its Tasks and
-- its Executions are rows with a status and a revision, moved by transition commands under an
-- optimistic lock, each with a history table; a Task that waits is leased to a worker.
--
-- Parts and files:
--   Common: shared names, tests, table operations, texts.
--   Session: one `with engine.begin()` or `engine.connect()` block is an atomic step; before each
--     step the other sessions may change the tables, and the connection may be lost before the
--     step or after its commit (the list `upcoming`; beyond its end no one interferes). Keeps and
--     Ensures are the rules for invariants and results under interference; a hypothesis
--     `Guided rely w.upcoming` says what the other sessions respect.
--   Database: the tables of event_ingress/migrations as lists of rows, the newest first.
--   Run/Model, Run/Rules: run_lifecycle/model.py and rules.py. Run/Contract:
--     contracts/agent_run/validator.py, its schema, and `_to_contract`. Run/Repository:
--     run_lifecycle/repository.py with the constraints of migration 002. Run/Service:
--     run_lifecycle/service.py (Create: the two creations; Transition: transition_run).
--     Run/History, Run/Consistency: the invariant of the two tables. Run/Guarantees, Run/Locking,
--     Run/Ended, Run/Quiet: what a client may rely on, under interference and without.
--   Task/Model, Task/Rules: task_lifecycle/model.py, with the rows of its tables, and rules.py.
--     Task/Constraints, Task/Repository: task_lifecycle/repository.py with the constraints of
--     migrations 003 and 004. Task/Order: the order of dependencies. Task/Contract:
--     contracts/agent_task/validator.py, its schema, and `_to_contract`. Task/Service:
--     task_lifecycle/service.py (Create, Transition). Task/Consistency, Task/Guarantees: the
--     invariant of its tables, and what a client may rely on. Task/LeaseTable, Task/Lease:
--     task_lease.py.
--   Ingress/Model, Ingress/Inbox, Ingress/RuntimeConfig, Ingress/Starter, Ingress/Worker:
--     event_ingress/model.py, repository.py, runtime_config.py, run_starter.py, processor.py and
--     worker.py. Ingress/Durable, Ingress/Offsets: what a committed offset implies.
--     Ingress/Provenance: what a loaded configuration gives a Run.
--   Execution/Model, Execution/Rules, Execution/Constraints, Execution/Repository:
--     execution_lifecycle/model.py, rules.py, repository.py and the constraints of migration 004.
--     Execution/Contract: contracts/agent_execution/validator.py, its schema, and `_to_contract`.
--     Execution/Service: execution_lifecycle/service.py (Create, Transition). Execution/Consistency:
--     the invariant of the two tables. Execution/Guarantees: what a client may rely on.
--   Coordinator/Model, Coordinator/Repository, Coordinator/Service: coordinator_start/model.py,
--     repository.py with the constraints of migration 005, and service.py. Coordinator/Receipts:
--     what a receipt means. Coordinator/Finished: a Run that has ended.
--   Dispatch/Repository, Dispatch/Service: coordinator_task_dispatch/repository.py, model.py and
--     service.py. Dispatch/Links, Dispatch/Stored: what its transaction stores, and the order of the
--     dependencies. Dispatch/Retry: what a retried dispatch returns.
--   Worker/Model, Worker/Validation, Worker/Repository, Worker/Transaction, Worker/Service: `start` of
--     worker_task_execution.py with the constraints of migration 007. Worker/Admission: what a
--     start implies. Worker/Completion, with Transaction, Service and Admission: `complete` with the
--     constraints of migration 008, and what it implies.
--   Versioned: what the tables of Runs, Tasks and Executions have in common, rows under an
--     optimistic lock with a history, and the lemmas on its invariant that Task/Consistency and
--     Execution/Consistency use. Versioned/Lookup: lookups by key, for the rows that have ended.
--   System/Frame, System/Serve: a client of the three lifecycle services on one database.
--     System/Ended: Tasks and Executions that have ended.
--   Tests (beside the parts that they are about): runs on concrete tables.
--
-- Conventions of the model:
--   A datetime is its UTC instant in microseconds, and `_format_timestamp` and its parser are
--     inverse. Clocks, identifier factories and drawn tokens are arguments of a call (Inputs).
--   Texts are compared by code points; a collation and the widths of columns are not modelled.
--   JSON columns hold the list that is printed into them; result_json and failure_json hold the
--     text that the database returns, which the services compare.
--   A duplicate key or a missing parent row raises IntegrityError, a failed CHECK
--     OperationalError; a matched row counts as updated.
--   The messages of exceptions keep their fixed text, and a validation issue its code.
--   The `pattern` keyword belongs to the jsonschema library: `matches` is a parameter. So are the
--     hash of hashlib, the printer of json, and the JSON columns of MySQL (the record Libraries of
--     Execution/Contract), and the digests of the payloads of starts and of a dispatch, which hash
--     what json prints. Whether GET_LOCK grants the admission lock is an
--     argument. The Kafka consumer (what `poll` returns or raises, and
--     what `commit` does) and the decoder are arguments of the ingress worker.
--   Fuel: `digits` of Common/Decimal takes the number itself, which is more than its digits. All
--     other definitions follow the structure of their arguments.
--
-- Not modelled: the decoder and the contract of incidents, and the classification of two contracts
-- against each other, which remain to be done; the entry points,
-- migrations and the Kafka adapter, which are I/O.
pub mod Common
pub mod Session
pub mod Versioned
pub mod Database
pub mod Run
pub mod Execution
pub mod Task
pub mod Coordinator
pub mod Dispatch
pub mod Worker
pub mod System
pub mod Ingress

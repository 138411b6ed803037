-- ===== src/Lib.antt =====
-- OpenMesh AI: a pool of workers that run jobs for clients. A coordinator (pool-coordinator/app) takes
-- jobs, hands them to workers, checks what they submit, and pays for it out of a token ledger; a
-- gateway (pool-gateway/app) stands in front of it; a worker runs an engine (worker/engine_py). This
-- library models the coordinator's services and requests, alone and as the steps of one system, the
-- gateway's keys, limits, endpoints and wait for a result, and the engine.
--
-- The parts, and how they meet. A request creates a queued job (`create_internal_job`); the scheduler's
-- rounds give queued jobs to online workers (`dispatch_round`); a worker polls for an assignment and
-- submits a signed result (`submit_job`). A submission passes the rate limiter and the signature check,
-- then the verification compares the result with an expected hash or with another worker's result and
-- moves reputations, and the accounting charges the client and pays the pool and the worker's owner.
-- Once a day an emission pays the owners of workers for their uptime. Other pools forward jobs and
-- relay results.
--
--   Prelude       tests, lists, signed integers, text and options that all parts share
--   Decimal       Python's `decimal` as the code uses it: parsing, comparing, rounding to 28 digits,
--                 unary minus
--   Json          JSON values as ordered trees, and `json.dumps` with compact separators
--   Db            pool-coordinator/app/db/models: the rows, and the tables that a session works on
--   Finance       pool-coordinator/app/services/finance.py
--   Dispatch      pool-coordinator/app/services/job_dispatcher.py and the dispatch loop of scheduler.py
--   Emission      pool-coordinator/app/services/emission.py and the emission loop of scheduler.py
--   Verification  pool-coordinator/app/services/verification.py
--   RateLimit     pool-coordinator/app/core/rate_limit.py, and `RateLimiter` of pool-gateway/app/main.py
--   Crypto        pool-coordinator/app/core/protocol_crypto.py
--   Api           pool-coordinator/app/api: jobs.py, p2p.py, me.py, workers.py, auth.py,
--                 dependencies/auth.py; core/security.py, services/api_keys.py, schemas/jobs.py
--   Gateway       pool-gateway/app/main.py: `load_settings`, `get_client_id`, `embed`, `rank`,
--                 `_create_job`, `_wait_for_verification`, `_run_job`
--   Observability pool-coordinator/app/core/observability.py, and its copy in pool-gateway/app/main.py;
--                 the middleware of both main.py files
--   Seeds         pool-coordinator/app/db/seeds.py
--   Admin         pool-coordinator/app/api/admin.py
--   Engine        worker/engine_py/engine.py
--   System        pool-coordinator/app/main.py: the writing endpoints and the loops as steps of one state
--   Samples       the rows that the tests use; each part's tests are in its Tests module
--
-- A session is the record `Db`, a list of rows per table, in the order of the primary keys. An
-- operation takes it and gives it back; an exception that ends a request is `none`, `server_error` or
-- a refusal with its status and detail, and comes without tables: that the session's rollback or close
-- undoes what it wrote is taken as given. What a session adds it finds at once, also before a flush; no
-- part asks again for rows that it has added and not flushed. A query is a search or a
-- filter over a list with the code's conditions; an `ORDER BY` is an insertion sort, or the least
-- row where the first is taken. An amount of tokens is a whole number of units of 0.00000001, as the
-- columns hold it. Instants and ids are numbers. Queries of one session run one after another; what
-- other sessions do between them is not modelled, and row locks are taken to be free.
--
-- Every loop is structural recursion over its list, except the digits of a number, where the number
-- itself bounds the rounds: each divides it by ten (`digits`, `excess_digits`, `digits_rev`), and the
-- digits of a quotient, where the divisor bounds them: each round multiplies by ten. The gateway's wait runs over a list of polls, and enough
-- of them bring it to its end.
--
-- Parameters of the model are the code that is not here: Python's floats (`Floats`), the text of a
-- float, Ed25519 (`ed25519`), the hashing of passwords, the encoding of tokens, digests, the clock,
-- `uuid4`, `json.loads`, the sentence transformer of the engine, and whether a commit succeeds.
--
-- Not modelled: the web framework and its reading of request bodies (the validator
-- and the lengths of a submission are modelled), the database's own constraints, the environment that
-- the coordinator reads, the start and stop of its loops, logging, migrations, the gateway's portal
-- page, and the Rust worker. In System a request ends before the next one begins, its commit succeeds
-- unless the step says otherwise, and API keys, whose table nothing else reads, are left out.
pub mod Prelude
pub mod Decimal
pub mod Json
pub mod Db
pub mod Finance
pub mod RateLimit
pub mod Dispatch
pub mod Verification
pub mod Emission
pub mod Crypto
pub mod Api
pub mod Gateway
pub mod Seeds
pub mod Admin
pub mod Engine
pub mod Observability
pub mod System
pub mod Samples

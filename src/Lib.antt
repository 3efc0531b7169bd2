-- ===== src/Lib.antt =====
-- Notification system: a verification library for the notification service.
--
-- The program takes notifications over HTTP, stores them in PostgreSQL together with an outbox row, relays
-- the outbox to Redis streams, and has workers that claim a delivery, wait for a rate limit, call a provider
-- and record how it ended. A scheduler promotes scheduled deliveries, sweeps retries, reclaims expired
-- leases, relays the outbox and reports gauges.
--
-- Which file models what (paths from the repository's root):
--
--   Domain        internal/domain: enumerations, errors, rows and messages; Domain/Status is
--                 AggregateRequestStatus; Domain/Query is the filter of a listing.
--   Retry         internal/delivery/retry.go: EvaluateFailure, backoffFor, applyJitter.
--   Effects       what leaves the program beside the tables: calls, stream entries and counters.
--   Store         internal/adapters/postgres. Store/Session is withTx and what a statement is; Batches,
--                 Requests, Deliveries, Outbox and Due are the statements, file by file; Listing is
--                 ListRequests and its keyset; Outcome has the rules of reasoning about an action;
--                 Claims, Insertion, BatchKeys, Promotion, Cancellation, Atomic and Consistent are about
--                 what the operations do, and System about the tables under any sequence of them.
--   Template      internal/template and postgres/template.go.
--   Notification  internal/notification: input.go, build, and the use cases of service.go and batch.go;
--                 Notification/Sound is about the tables that they leave.
--   Provider      internal/adapters/provider: webhook.go and breaker.go.
--   Worker        internal/worker. Worker/Process is process.go; Worker/Pool is Run, the channel, the
--                 goroutines and the read loop of worker.go; Held, Quiet and Sound follow the tables
--                 through the pipeline, and Counted the attempts.
--   Queue         internal/adapters/redis/queue.go.
--   RateLimit     internal/adapters/redis/ratelimit.go, both limiters.
--   Scheduler     internal/scheduler/jobs.go, and the configuration of scheduler.go.
--   Platform      internal/platform/auth/auth.go, and internal/platform/config/config.go: Variables are
--                 the getters, Settings the records, Load the reading, Checks the validation; Tokens is about
--                 the tokens that are signed.
--   Bootstrap     internal/bootstrap and cmd/worker/main.go: what the parts are built from.
--   Http          internal/transport/http: errors.go, auth_middleware.go, dto.go, handlers.go, and
--                 cursor.go in Cursor; Filter and Listing are the listing, Paging and NextPage the round
--                 trips of its cursor, Responses the bodies; Middleware is middleware.go and the chain of
--                 router.go, and Guarded what it promises.
--   Tests         a sample of the tables and the theorems at concrete inputs.
--
-- How code becomes definitions. An operation is an action: a function of a session to a result and the
-- next session. A session holds the tables, a replica of them for the reader pool, the time, the UUIDs to
-- draw and an oracle `faults` that says of every statement and outside call, by its number, whether it
-- fails; one that fails changes nothing. `with_tx` rolls the tables back on an error. Statements of one
-- session run one after the other. Several processes are a sequence of operations over one set of tables,
-- each in a session of its own (`Store.System.Runs`); transactions are serialised. The goroutines of the
-- worker are the steps of a relation (`Worker.Pool`). Only pauses take time: a statement, and a call of
-- the rate limiter or of the provider, take none. A commit that fails has not committed, and rows that an
-- ORDER BY leaves equal stay in the order of the table. Durations are integers, instants and UUIDs natural
-- numbers.
--
-- Parameters stand for code of others: floating-point numbers (`Floats`), the rate limiter and the provider
-- behind gobreaker (`Ports`), redis_rate and x/time/rate (`RateLimit`), the environment with strconv and
-- time.ParseDuration (`Environment`), base64, UUIDs and times in text (`Codecs`), the JSON decoder,
-- `http.ParseTime` and the JWT library.
--
-- Bounds and fuel. `wait_for_rate_limit` runs on as much fuel as there are instants up to the deadline, and
-- two more, which is enough where every pause takes at least one instant. The loops of the scheduler's jobs
-- run on fuel that is given, and say with `false` that it ran out.
--
-- Not modelled: the tickers and goroutines of the scheduler, cancellation of a context but for the worker's
-- `Run`, the partition procedures of the database, connection pools, the routing table,
-- logging but for the access log, metrics, tracing and the entry points, but for what `Bootstrap` takes of them.
pub mod Prelude
pub mod Domain
pub mod Retry
pub mod Effects
pub mod Store
pub mod Template
pub mod Notification
pub mod Provider
pub mod Worker
pub mod Queue
pub mod Scheduler
pub mod Platform
pub mod Http
pub mod Bootstrap
pub mod RateLimit
pub mod Tests

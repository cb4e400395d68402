-- ===== src/Lib.antt =====
-- Payment API: merchants hold wallets, move money between them, take payments, and are paid out,
-- with an event for what happens and an idempotency key for what a client repeats.
--
-- PARTS. The HTTP layer authenticates a request, validates its body, guards POST /transfers with
-- the idempotency middleware, and calls the services. Transfers, payments and payouts write
-- wallets and the ledger, payments and payouts also the outbox of webhook events, inside one
-- transaction each. Workers run beside the server: one settles wallets into payouts and sends
-- these to the bank; the events of the outbox are delivered by one worker from the table, or by
-- another one through RabbitMQ. The migrations build the tables.
--
-- FILES. Errors: src/errors.ts. Db: the tables of migrations/ (Db/Rows), statements and
-- withTransaction of src/db.ts (Db/Statement), the same withTransaction down to the calls of its
-- client (Db/Client), and what an UPDATE does row by row (Db/Updates). Wallet:
-- src/wallets/wallet.repository.ts and wallet.service.ts. Ledger: src/ledger/ledger.repository.ts.
-- Books: the agreement of balances and ledger entries. Transfer:
-- src/transfers/transfer.service.ts, and in Transfer/Accounts the same transfer between accounts
-- without tables, which it refines; Transfer/Inexact is on the amounts whose text is another
-- number. Payment: src/payments/payment.service.ts with its two repositories (Payment/Rows).
-- Webhook: src/webhooks/webhook.service.ts and the registration of endpoints. Delivery:
-- src/webhook-worker.ts and, in Delivery/Events, src/webhooks/webhook-event.repository.ts. Rabbit:
-- src/rabbit-worker.ts, the queues of src/webhooks/rabbit/topology.ts (Rabbit/Broker), the steps
-- of relay, consumer, broker and emitting transactions (Rabbit/Steps), and what follows an outage
-- at the consumer (Rabbit/Loss, Rabbit/Stuck, Rabbit/Stays, Rabbit/Forever). Payout:
-- src/payouts/payout.service.ts with its repositories (Payout/Rows) and its registration and lists
-- (Payout/Accounts, Payout/Destination), and the tick of src/settlement-worker.ts. Merchant:
-- src/merchants/merchant.repository.ts. Auth: src/auth/ and src/middleware/authenticate.ts.
-- Idempotency: src/middleware/idempotency.ts and src/idempotency/idempotency.repository.ts. Http:
-- src/middleware/error-handler.ts and the transfer controller; Http/Controllers the other
-- controllers; Http/Routes src/middleware/validate.ts, the routers and their mounts in src/app.ts,
-- Http/Schemas the schemas of src/*/*.dto.ts, and Http/Posting POST /transfers as a whole.
-- Http/App: the other mounts of src/app.ts. Telemetry: src/middleware/request-logger.ts and
-- src/middleware/metrics.ts, with Telemetry/Lines on the log and Telemetry/Audit on both. Worker:
-- the loops of the three workers' processes. Migrate: src/migrate.ts. Seed: src/seed.ts. Attack:
-- src/attack.ts, with Attack/Keyless on its requests, Attack/Audit on its verdict and
-- Attack/Seeded on the data of src/seed.ts. System: the transactions of all parts that move money,
-- in any order. Prelude has the shared names, list functions and integers, and, in Prelude/Double,
-- what Number.prototype.toString writes, Sample a small database, and Tests what is run on it. A
-- function of the source keeps its name in snake case; a part of a method that a proof speaks
-- about is a function of its own, below a comment that quotes its condition.
--
-- MODEL. A call that takes an executor is a function from a database to a result and a database;
-- the result is a value or an error, which is a domain error, an error of PostgreSQL by its
-- SQLSTATE, or a plain one. A database is a record of tables, the time of now() and the stream of
-- UUIDs, any function of a counter. Rows that the source adds at the end of a table are added at
-- the front, since no statement without ORDER BY depends on it. Amounts and balances are natural
-- numbers; a delta is an integer, an update that leaves 0 to 2^63 - 1, or takes the INTEGER column
-- version beyond 2^31 - 1, is an error, and CHECK, UNIQUE and the references to merchants are
-- tested where an INSERT or UPDATE can break them. References to rows that the same transaction
-- made or read are left out. An amount of a request is a JS number: where the code takes BigInt of
-- it the model has the number, and where it takes toString the number that the text stands for
-- (to_string), which is the same up to MAX_SAFE_INTEGER and need not be above; from 10^21 on,
-- toString writes an exponent, which a BIGINT refuses as a text and not as out of range
-- (refused_as). The attempts of payouts and events, which start at 0 and which the workers stop
-- counting at 3 and 5, have no upper bound. A saved response body is JSONB: its text in the model
-- stands for its JSON value, whose keys PostgreSQL may reorder.
--
-- CONCURRENCY. Other sessions are arguments: functions on the database that run where the code
-- waits between two statements or transactions, and of which a theorem assumes only what it names.
-- A transaction whose rows are locked, by FOR UPDATE or by its first UPDATE, runs as one step.
-- SKIP LOCKED skips nothing, since a claim is one statement.
--
-- The requests of the load script run one after the other, in the order in which the server takes
-- them, and nothing else runs meanwhile.
--
-- The relay of RabbitMQ takes what runs in the process while it waits for the broker as an
-- argument; Rabbit/Steps orders ticks, deliveries, expiries and emissions as a relation between
-- worlds, with nothing between a tick's claim and its mark.
--
-- The steps of System are the transactions of the server, the workers and the seed. The reset of
-- balances in src/attack.ts, which writes no ledger entries and is for test data alone, is none of
-- them.
--
-- BOUNDS. The loop of a transfer recurses on the attempts that are left, from MAX_RETRIES = 5, as
-- the source counts them; the loop of a worker's process (Worker) takes fuel, one for each test of
-- its condition, and ends with any fuel above the number of tests before a signal; the load script
-- recurses on the number of its requests, CONCURRENCY = 30; to_string looks for the exponent of a
-- double among the 971 that there are, and for zeros at the end of a text among 21; every other
-- loop recurses on the list that it walks.
--
-- PARAMETERS. JSON.stringify, SHA-256, HMAC, bcrypt with its salt, jsonwebtoken with the clock
-- that it reads, toLowerCase and trim, random bytes, what zod tests of a value and what
-- express.json makes of a body, the answer of fetch, what the broker confirms, the texts of
-- PostgreSQL's errors, the outages that make a payout's transaction or the consumer's first query
-- fail, the events of a response with what Express makes of req.url and req.route by then, and the
-- files of the migrations with what their SQL does to a schema. An id in a path is a UUID, as all
-- ids are; others, which PostgreSQL refuses with an error, are left out.
--
-- NOT MODELLED. Tracing, the business counters and all lines of the log but the two of each
-- request, which nothing reads back; the connection to the broker; what a worker closes when it
-- ends; process start.
pub mod Prelude
pub mod Errors
pub mod Db
pub mod Wallet
pub mod Ledger
pub mod Transfer
pub mod Webhook
pub mod Payment
pub mod Payout
pub mod Idempotency
pub mod Delivery
pub mod Rabbit
pub mod Merchant
pub mod Auth
pub mod Migrate
pub mod Http
pub mod Sample
pub mod Tests
pub mod Books
pub mod Worker
pub mod Attack
pub mod Telemetry
pub mod Seed
pub mod System

-- ===== src/Lib.antt =====
-- A verification library of the payment service of this repository, written beside its code.
--
-- The program. A client creates and captures payments over HTTP. The payment service decides
-- first, by an idempotency record, whether the request is new, a repetition or a conflict; it
-- then asks a payment provider, and commits the payment, an outbox event about it and the
-- completed idempotency record in one transaction. An outbox worker later publishes the events to
-- RabbitMQ and marks their rows. In front of the payment service stands a gateway, which checks the
-- client's API key and calls the payment service with a secret of its own.
--
-- The parts, with the code that each models (paths from the repository's root, where
-- `payment-service` stands for services/payment-service/src):
--   Prelude, Json, Errors: shared types; Errors is payment-service/types/errors/api-error.ts.
--   Tables: the meaning of SQL statements on lists of rows, with laws in Tables.Laws.
--   DataAccess: payment-service/data-access over the tables of bootstrap/knex/migrations. Rows has
--     the records; Payments, Idempotency and Outbox have a definition for each method of
--     PaymentsDataAccess, IdempotencyDataAccess and OutboxEventsDataAccess; Migrations has the
--     migrations 003 to 006 and their way back, on tables that have rows.
--   Providers: payment-service/services/providers; Contract is the interface, Mock the mock
--     provider, Registry the registry.
--   Exec: how a request runs. `transaction` is TransactionManager.run; `await` is a statement
--     outside a transaction; `try_catch` is `try … catch`.
--   Idempotency: payment-service/services/idempotency. Service has `getExistingOrStart` and its
--     helpers, Canonical has `canonicalize`.
--   Outbox: payment-service/services/outbox.
--   Payments: payment-service/services/payments. Status is PaymentStateService, Service is
--     PaymentsService (`create`, `capture`, `getById`), with its parts in Commands; the other
--     modules are theorems about it.
--   System: the steps that requests and workers make in the database, and what they preserve in
--     any interleaving.
--   Worker: payment-service/workers/outbox-publisher-worker.ts: `pollOnce` and its helpers, and
--     in Worker.Lifecycle the starting and stopping.
--   Messaging: payment-service/messaging. Publisher is rabbitmq-publisher.ts, the settling of
--     publications, and Message the message that it sends; Connections is
--     rabbitmq-connection-manager.ts, with its methods cut at their awaits: a stage says what is
--     awaited, and a reply of the AMQP client resumes it; Together is the publisher on the manager's
--     channels.
--   Bootstrap: payment-service/bootstrap/payment-service-bootstrap.ts: its shutdown as a whole, and in
--     Lifecycle the starting, the shutdown, the signals and the forced shutdown, cut at their awaits
--     in the same way. Bootstrap.Process is payment-service/index.ts, on that life, with the
--     `process.exit` that bootstrap/container.ts gives it as `forceExit`: in Lifecycle, which leaves
--     `forceExit` open, the service goes on behind it, and in Process nothing does.
--   Configuration: what constructors of the payment service and the gateway read from the environment.
--   Http: the middlewares and the validation of payment-service/server, and the authentication of
--     the gateway in services/api-gateway/src (server/middlewares and services/auth).
--   Server: payment-service/server. Server is init-custom-routes.ts, Server.Controllers the
--     controllers, Server.Application server.ts, and Server.Routes has the routes of the payment
--     service (Internal) and of the gateway (Public).
--   Gateway: services/api-gateway/src. Client is clients/payment-service-client.ts; Controllers has the
--     controllers and services/payments-gateway-service.ts.
--   OpenApi: packages/openapi-kit/src. OpenApi is joi-to-openapi.ts, OpenApi.Paths the paths and the
--     document, OpenApi.Setup setup-openapi.ts, and OpenApi.Pattern the regular expressions.
--   Samples and the modules called Tests run the code on concrete data.
--
-- How the code is modelled. A table is a list of rows, oldest first, and each SQL statement is
-- written out on it: the rows that its WHERE admits, the columns that it sets, the constraint that
-- it can break. A request is a function of a world: the database, the clock of the process, the
-- clock of the database, the supply of UUIDs, the log of provider calls, and a list of ticks. Before
-- each statement or transaction the next tick lets other requests change the database, lets time
-- pass, and decides whether the statement executes, is refused, or executes without an
-- acknowledgement; so a theorem about all lists of ticks is one about all interleavings and faults.
-- A transaction is one step: the locks that it takes and its single commit let no other request
-- between its statements, and if its body throws it has no effect. When the list of ticks is used
-- up, nothing interferes any more.
--
-- The connection manager and the bootstrap live in one process, so there the interleaving is that of
-- awaits: a step is a call, an event, or the settling of what a stage awaits, and a run is any
-- sequence of steps. That an object is released means that its close was called. The await of a
-- `closeHttpServer` that has no server to close, one microtask, is left out.
--
-- Numbers. Amounts and instants (in milliseconds) are natural numbers; the column of an amount is a
-- bigint, which holds what the client may send; a row with a negative amount, which the check of
-- migration 004 refuses, cannot be written. An ISO timestamp is kept as its instant. The loops of
-- the code that are modelled are over a list, a text or a bounded count, and have no fuel. A `close`
-- of the connection manager and a shutdown of the service are sequences of awaits; what the awaits
-- come to is given as a list. `run_stop` in Bootstrap.Lifecycle.Agreement, which relates the two
-- descriptions of `stop`, counts awaits; it is given seven, as many as the longest path through `stop` has.
--
-- Not modelled: the length limits of the columns of `idempotency_keys` and of the texts of
-- `payments` that come from a validated request; the values that some error messages embed (the
-- message is kept without the value); logging; the containers and the entry points of the other
-- services, which wire libraries; indexes, and the dropping of whole tables; the skeletons of the
-- ledger and webhook services, which have copies of the server and no routes.
--
-- Parameters stand for the SHA-256 of `JSON.stringify` and for `JSON.parse` (fields of
-- IdempotencyService), for Joi's schemas, their `describe` and their `validate` (in Http, OpenApi and
-- Server), for Awilix's container, Express's chain of handlers and `String(…)` of a value that is no
-- text (in Server and Gateway), for `fetch`, and for the transport from the gateway to the payment
-- service (in Gateway), which is taken to keep only the client's own headers, with printable values that
-- neither begin nor end with a space, and bodies that `express.json()` reads as they were sent, for the settling of closed resources (in Bootstrap), for the AMQP client's
-- replies and `new URL` (in Messaging), for JavaScript's numbers (in Configuration), for the order of
-- UUIDs in PostgreSQL and the rows that `SKIP LOCKED` leaves out (in Worker.Surroundings), and for
-- what payment providers and the broker answer, as functions of their input.
pub mod Prelude
pub mod Errors
pub mod Tables
pub mod Json
pub mod DataAccess
pub mod Providers
pub mod Exec
pub mod Payments
pub mod Outbox
pub mod Idempotency
pub mod System
pub mod Worker
pub mod OpenApi
pub mod Server
pub mod Configuration
pub mod Bootstrap
pub mod Http
pub mod Gateway
pub mod Messaging
pub mod Samples

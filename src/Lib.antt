-- ===== src/Lib.antt =====
-- Shippy books containers on vessels. A consignment is created with a reservation of a vessel's
-- capacity, and confirmed by a saga: the payment is authorised, captured, and the reservation
-- confirmed, or all of it is undone. The services talk by gRPC and by events on Kafka, which each
-- of them writes to an outbox in its own database and publishes from there.
--
-- Prelude is shared by all modules: results and errors of Go as values (Prelude/Results: a handler
-- is a function from a state to a result and a state, so what was written before an error stays),
-- maps (Prelude/Dict), integers that wrap around as int32 (Prelude/Int), the retries of
-- github.com/cenkalti/backoff (Prelude/Backoff), invariants of handlers (Prelude/Keeps), lists of
-- documents (Prelude/Collection) and `%d` (Prelude/Decimal).
--
-- Payment models cmd/payment-service/handler.go: the four calls and the map of payments.
-- Payment/Lifecycle has the life of a payment, Payment/Idempotence and Payment/Refunds the
-- repeated calls. The order in which Go visits a map is a parameter.
--
-- Vessel models cmd/vessel-service: Vessel/Repository the three transactions on MongoDB
-- (repository.go), Vessel/Messages and Vessel/Handler the gRPC side (handler.go). Vessel/Database
-- is the part of the MongoDB driver that the repository calls, a parameter with its documented
-- behaviour: snapshots, a unique index, an update of one document, a commit whose answer may be
-- lost, and the server's passes over the operations that are older than the 30 days of the second
-- index, which come between the calls. Vessel/Tests/Memory is an instance. The theorems stand
-- under Vessel/Repository by what they prove.
--
-- Events has the messages of proto/events/events.proto, with the protobuf encoding as a parameter,
-- and the topics. Outbox has the interface of the outbox of both services, and Outbox/Publisher
-- the run that publishes it (cmd/consignment-service/manager/outbox.go, which is the same as
-- cmd/reservation-service/manager/outbox.go), with the Kafka producer as a parameter;
-- Outbox/Publisher/Runs has its theorems, and Outbox/Publisher/Keeps what a run keeps of the
-- outbox. Kafka models pkg/kafka: Kafka/Consumer the loop of consumer.go, with so many of its
-- passes as an argument, since it ends with its context only, and Kafka/Consumer/Offsets what it
-- reads and commits; Kafka/Producer producer.go, and Kafka/Producer/Delivery its results and the
-- producer as the one of the publisher; Kafka/Headers the carrier of the trace context
-- (propagator.go), with Kafka/Headers/Carrier; Kafka/Admin the creation of topics (admin.go). The
-- client library is a parameter whose partitions stay with one consumer.
--
-- Reservation models cmd/reservation-service: Reservation/Server the gRPC calls
-- (server/handler.go), with Reservation/Server/Calls for their theorems, Reservation/Manager the
-- processing of a capacity event and what is published (manager/event.go),
-- Reservation/Manager/Handlers the handlers, the table of New and the cleanup of expired
-- reservations (manager/event.go, manager/manager.go). The cache, the outbox and the client of the
-- vessel service are interfaces (storage/interfaces.go and proto/vessel/vessel.proto); what is
-- assumed of them is stated in Reservation and Outbox. Reservation/Manager/Duplicates, Retries,
-- Publishing, Outcomes and Table have the theorems of the manager, and Reservation/Manager/Steps
-- runs its jobs in any order, with what other instances do. Reservation/Redis is the part of redis
-- and of the JSON encoding that the cache calls, Reservation/Cache the cache on it
-- (storage/redis/redis.go), with Keys and Scanning below it for the theorems, and Instance for the
-- cache as the interface of the manager. Reservation/Postgres is the outbox on a pool of
-- connections (storage/postgres/outbox.go, database/sql/init.sql), Reservation/Postgres/Leases the
-- polls of several publishers, Rows and Published beside it what is marked as published,
-- Reservation/Postgres/Publishing the publisher on this outbox, and Reservation/Postgres/Instance
-- the outbox as the interface of the manager. Testing has concrete parameters for these modules.
--
-- Consignment models cmd/consignment-service: Consignment has the data and the interfaces
-- (storage/types.go, storage/interfaces.go), with what a transaction of the database may do;
-- Consignment/Messages the conversions of messages (storage/mongo/mongo.go), Consignment/Server
-- the gRPC calls (server/handler.go), Consignment/Manager what the four handlers do and publish
-- (manager/event.go), Consignment/Manager/Handlers the handlers and the table of New
-- (manager/event.go, manager/manager.go). Consignment/Server/Created and
-- Consignment/Server/Confirm, Consignment/Find and Consignment/Manager/Publishing, Capture, Undo
-- and Endings have the theorems; Consignment/Memory is an instance of the interfaces.
-- Consignment/Driver is the part of the MongoDB driver that the storage calls, Consignment/Storage
-- the repository, the outbox and the transactions on it (storage/mongo),
-- Consignment/Storage/Claims the polls of several publishers, and Consignment/Storage/Instance the
-- storage as the interfaces of the manager and the server.
--
-- Saga has the steps that cross from one of the two services to the other: what one queues in its
-- outbox, and what the handler of the other does with it.
--
-- User models cmd/user-service: the rows and messages, User/Repository on an abstract database
-- (repository.go), User/Token on an abstract JWT library (token_service.go), User/Handler the gRPC
-- calls with bcrypt as a parameter (handler.go), where a panic on a nil pointer is a value;
-- User/Login has the theorems and User/Memory concrete parameters. Gateway models cmd/gateway:
-- Gateway/Middleware the check of a token (middleware/auth.go), Gateway/Handler the handlers and
-- the routes (handler, main.go), Gateway/Access who gets through, Gateway/Login the way from a new
-- user to the guarded routes, on the user service, and Gateway/Confirm a confirmation on the
-- consignment service.
--
-- A client of another service is a parameter whose calls may fail at any time, whatever the
-- service did. The retries of a call are bounded by MaxRetries and backoffAttempts, both 3; the
-- number of runs of an operation is part of what is assumed of the backoff library. Loops are
-- structural, and the text of a number is computed with ten rounds of division, enough for an
-- int32. The two iterations of redis over its keys run on fuel, with the theorem that a call for
-- each of the batches is enough.
--
-- Not modelled: tracing, logging, metrics other than the calls that the consignment service makes,
-- the tickers and goroutines that start the modelled functions, rebalances of Kafka, the
-- connections and the start-up of the services, the command line clients and the email service,
-- which is a stub, the configuration, which viper and the validator read, and deployment.
pub mod Prelude
pub mod Payment
pub mod Vessel
pub mod Events
pub mod Outbox
pub mod Kafka
pub mod Reservation
pub mod Consignment
pub mod User
pub mod Gateway
pub mod Saga
pub mod Testing

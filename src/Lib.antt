-- ===== src/Lib.antt =====
-- A model of at-gateway, the gateway that sends and receives SMS through a modem with AT commands and
-- offers the API of SMS Gateway for Android over them.
--
-- The program's parts. A request enters the messages service (internal/messages), which stores a
-- message with its recipients in SQLite; a background worker claims the stored messages one by one,
-- hands every recipient's text to the modem service (internal/modem) and applies the delivery
-- reports that come back; each change is told to the webhooks service (internal/webhooks). In the
-- other direction the modem service hands the received parts to the inbox service (internal/inbox),
-- which joins them, stores the messages and emits webhook events, at most once per webhook within a
-- window.
--
-- The files:
--   Prelude               shared names, Boolean tests, lists as tables, lists of pairs as Go maps
--   Messages/Result       errors, failure reasons and outcomes (internal/messages/errors.go)
--   Messages/State        processing states and state histories (models.go, domain.go)
--   Messages/Domain       inputs, messages, recipients, their content (domain.go)
--   Messages/Rows         table rows and their mapping onto the domain (models.go)
--   Messages/World        the environment, the state and the monad of the operations (metrics.go)
--   Messages/Statements   each SQL statement of repository.go as a function of the tables
--   Messages/Repository   the operations of repository.go, with their transactions
--   Messages/Intake       Enqueue and Cancel of service.go
--   Messages/Worker       the outbox and the delivery reports of service.go, with the check of a text
--                         (internal/modem/gsm7.go)
--   Messages/System       sequences of requests and worker turns (Run of service.go)
--   Inbox/Dedupe          internal/inbox/dedupe.go
--   Inbox/Reassembly      assembleInbound and the group functions of internal/inbox/service.go
--   Inbox/Emission        emitInbound, persistInbound, cleanupInbox and what they call
--                         (internal/inbox/service.go, types.go, repository.go)
--   Inbox/Pipeline        handleInboundPart and Run of internal/inbox/service.go
--   Webhooks/Domain       rows, payloads and errors (internal/webhooks/domain.go, models.go, errors.go)
--   Webhooks/Lifecycle    the life of a queue item, as the abstract description of the queue
--   Webhooks/Queue        the statements on the table webhook_queue (repository.go)
--   Webhooks/Registry     the statements on the table webhooks (repository.go)
--   Webhooks/World        the environment and the state of the service (config.go, metrics.go)
--   Webhooks/Emission     emit, emitTracked, enqueue and the emitters (service.go, events*.go)
--   Webhooks/Delivery     deliver, the marks after it, processQueuePass, Select, Replace, Delete
--   Webhooks/System       interleavings of the worker, the emitters, the requests and restarts
--   Gateway               the inbox on top of the webhooks service
--   Modem/Text            the functions of Go's packages that the modem component calls on texts
--   Modem/Domain          values, errors and the environment (internal/modem/domain.go, errors.go)
--   Modem/Commands        the drain barrier and Init (sms.go)
--   Modem/Queries         GetModemInfo, GetSimInfo and GetSignal (sms.go)
--   Modem/Store           the message store of the modem (store.go)
--   Modem/Sending         SendSMS of Commands (sms.go)
--   Modem/Calls           sequences of calls on one connection
--   Modem/Budget          spendChannelFull and its siblings (service.go)
--   Modem/Inbound         DecodeInboundSMS behind the decoding of the TPDU (inbound.go)
--   Modem/Service         handleCMTI, sweepStore and the route of a store entry (service.go)
-- The modules below one of these prove what their names say; the modules Tests hold concrete runs.
--
-- How the code is read. A definition has the name of its Go function in snake case. The tables are
-- lists of rows in the order of their ids. A SQL statement is executed or the driver reports an error
-- and leaves the tables, and a transaction that fails leaves them as they were. What the outside
-- answers (driver faults, the clock, generated ids, the modem, the webhooks service towards the
-- inbox, phone number parsing, the SMS encoder, JSON, hashing) is a field of `Env`, `InboxEnv`,
-- `HookEnv`, `ModemEnv` or `RouteEnv`, asked by the number of the step, so the theorems hold for every schedule of answers. The turns of
-- the worker and the requests are taken one after the other. Times are natural numbers of
-- microseconds; a comparison with a difference of times is written as a sum. A data or multimedia
-- message, and a parsed phone number, is a token that the code only hands on. A reason of failure is
-- kept as the data that its text is built from. A panic of Go is an outcome of its own. A Go map is a
-- list of pairs; where Go may walk it in any order, the list is one such order. The clock of the
-- webhooks service counts nanoseconds from an origin 2^63 nanoseconds before the Unix epoch, so that
-- the sum of a reading and a Duration of 64 bits is a natural number; the configured retry count is not
-- negative. A command of the modem is a value with the text that is sent; the store that the caller of a
-- store command means is part of the value and not of the text. The mutex of `Commands` makes a
-- command atomic with its drain and with the selection of its store.
--
-- All loops run over lists or over a count and are structural recursions; no fuel is used.
--
-- Not modelled: the listing queries and the refresh of the inbox, the session of the modem service
-- (connect, Run, the signal ticker, the delivery report handler), its health probe and serial port,
-- the HTTP server, configuration, storage, authentication, the ping ticker and the commands
-- (the rest of internal/modem, internal/server, internal/config, internal/storage, internal/auth,
-- internal/ping, internal/commands); logging, and the durations of commands; the truncation of the
-- queue's times to microseconds that the SQLite driver makes on a round trip
-- (internal/webhooks/domain.go): a row keeps its nanoseconds.
mod Prelude
pub mod Messages
pub mod Inbox
pub mod Webhooks
pub mod Gateway
pub mod Modem

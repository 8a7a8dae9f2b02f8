-- ===== src/Lib.antt =====
-- Facturify issues electronic invoices for Peru's tax authority, SUNAT: a NestJS service that takes
-- documents over HTTP, computes their taxes, signs and submits them, follows the tickets of SUNAT,
-- and tells its clients by webhooks. This library models the decisions of that program, as functions
-- that run, and proves what makes them correct.
--
-- The parts, and the files that model them:
--
-- Document life cycle (src/document-lifecycle). Lifecycle/Status has the statuses and the table
-- `ALLOWED_TRANSITIONS`, Lifecycle/Service the methods of `DocumentLifecycleService`, which parse
-- values of any type, evaluate, assert and list transitions. A document has no state but its status;
-- Lifecycle/Flow runs accepted transitions from DRAFT on as a step relation.
--
-- Tax calculation (src/tax-calculation). Tax/Service has the methods of `TaxCalculationService`, from
-- the parsing of quantities and prices to the totals of a document. The package of decimals is the
-- record `Decimals` of Tax/Decimal; `DecimalLaws` states its documented rounding to 20 significant
-- digits. Tax/Line, Tax/Document and Tax/Errors hold the theorems.
--
-- Idempotency (src/idempotency). Idempotency/Key validates the header; Idempotency/Path and
-- Idempotency/Json normalize the method, the path and the body of a request, and
-- Idempotency/Fingerprint has `generateFingerprint`. Idempotency/Records has `begin`, `complete` and
-- `abort` of `IdempotencyPersistenceService`, and the interceptor that calls them around a handler for
-- a given fingerprint, as functions from a database to a result and a database; Idempotency/Endpoint
-- has the interceptor from the request on. Idempotency/Table is the interface of the table and its
-- laws. Calls of the database run one after the other, and a completion does not fail.
--
-- Webhook destinations (src/webhook-dns-safety). Destination/Address classifies IP addresses and
-- Destination/Service validates a URL against what the DNS answers. `net.isIP`, the parser of URLs
-- and the resolver are arguments; the race of the timer and the resolver is the order in which they
-- come in, told by `lookup`. Destination/Blocks and Destination/Notation relate the tests on octets to
-- blocks of addresses.
--
-- Webhook delivery policy (src/webhook-policy) in Delivery, SUNAT ticket polling policy
-- (src/sunat-ticket-policy) in Ticket, and the delays of both in Backoff. Each policy is a
-- function from the context of an attempt to a decision. The clock, `Date.parse` and the random jitter
-- are arguments.
--
-- Outbox (src/outbox). Outbox has what becomes of a claimed event once its webhooks were called, from
-- the decisions of the delivery policy on the deliveries that failed. Outbox/Table has the statements of
-- Prisma on the table of events as a parameter, for any condition and change, and the conditions and changes
-- of `OutboxService`; Outbox/Batch has `processBatch` of one worker and both `enqueue`; Outbox/Claims runs
-- the statements of several workers in any order, and Outbox/Publishing is about a whole batch. The result
-- of `WebhooksService.dispatch` is an argument, as is the envelope that `DocumentEventsService` builds. The
-- interval timer of the processor is not modelled.
--
-- SUNAT catalogues (src/sunat-catalogs). Catalogs has the seven catalogues, one function for the seven tests
-- and one for the seven assertions, and the text of a code in a message.
--
-- Authentication throttle (src/auth-throttle). Throttle keeps the records of failed attempts in the
-- map of `AuthThrottleService`, an association list in order of insertion, and passes it from call to
-- call with the time of the call. HMAC-SHA256 is an argument.
--
-- Password policy (src/password-policy). Password/Text normalizes texts and finds runs of equal units,
-- Password/Service has the tests of `PasswordPolicyService` with all errors in their order. The letters
-- of Unicode are arguments.
--
-- Admin token policy (src/admin-token-policy). AdminToken/Claims has the constants and records,
-- AdminToken/Uuid the pattern of identifiers, AdminToken/Service `buildClaims` and `validateClaims`.
-- The claims of a payload are a list of properties; times are whole numbers, in Js/Integer.
--
-- Authentication (src/auth). Auth/Users has the administrators and the interface of their table,
-- Auth/Service the methods of `AuthService`, which pass on a state of the throttle, the table and the
-- audit log. The hashes of passwords, the signature of a token and the secrets are arguments.
--
-- SUNAT error classification (src/sunat-errors). Sunat/Table and its children hold the table of errors,
-- Sunat/Tokens the regular expressions (as matchers of Js/Pattern), Sunat/Codes the extraction of a
-- code, Sunat/Classifier `classify`. An error is a string, a number, an `Error` or an object with the
-- four properties that are read.
--
-- Peruvian validation (src/peru-validation). Peru/Ruc, Peru/Identity and Peru/Series have the methods
-- of `PeruValidationService`, Peru/Sanitizer the masks of error messages.
--
-- Base has the shared lists, tests, results of code that throws and their lemmas; Js has the language's
-- strings, numbers, values of type `unknown` and maps. A string is its list of UTF-16 code units. A
-- number is an exact rational, an infinity or NaN, so the rounding of doubles is not modelled.
-- Messages are constructors, with the texts that are put in them where a message repeats input.
--
-- How the parts interact: a login asks the throttle, then the table, then the policy on tokens, and
-- tells the throttle what became of it; a bootstrap asks the policy on passwords before it stores the
-- first administrator. The interceptor calls the validation of keys, the fingerprint, the records, and
-- the handler between them. The validation of identity documents calls that of the RUC; both retry
-- policies use Backoff; the outbox asks the delivery policy. The calls between other services that go
-- through the database or a queue are not modelled.
--
-- Bounds and fuel: loops are structural recursion over lists. Only `begin` of the idempotency records
-- takes a number of rounds, since it calls itself after it deleted an expired record; the interceptor
-- gives two, because no record is left to be found in the second.
--
-- Not modelled: the services that only read and write the database or files (documents, invoices,
-- receipts, notes, companies, storage, artifacts), cryptography and certificates, SOAP and XML, the
-- HTTP client of the webhooks, the queries of documents and of the audit log, and the validation of
-- settings. They call third-party packages, or await a model of the database.
pub mod AdminToken
pub mod Base
pub mod Catalogs
pub mod Js
pub mod Destination
pub mod Idempotency
pub mod Lifecycle
pub mod Auth
pub mod Backoff
pub mod Ticket
pub mod Delivery
pub mod Outbox
pub mod Sunat
pub mod Throttle
pub mod Password
pub mod Peru
pub mod Tax

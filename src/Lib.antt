-- ===== src/Lib.antt =====
-- ReconSync finds debits whose credit never arrived and drives their reversal. This library models the
-- core of the Go program and proves what makes it correct.
--
-- The parts, with the file that models each and the code it translates:
--
-- Common: shared names, lists, signed 64-bit integers with their wrap-around (Common/Int), Go maps as
--   association lists (Common/Assoc), equality tests as an interface, sorting. `sort.Slice` is
--   insertion sort; where the source ranges over a map, the model walks the list.
-- Domain/Status (internal/domain/status.go): the state machine of a transaction; Machine and Sources
--   hold what its table means.
-- Domain/Transaction, Domain/Event, Domain/Validate (transaction.go, event.go): the data, the amounts,
--   and the checks of shape. A time is a number of nanoseconds.
-- Domain/Sensitive (sensitive.go): the screen for card numbers and for fields that must not come in.
-- Rules (internal/rules/rules.go) and Rules/Provider (provider.go): which rule applies, and the cache
--   of rule sets. The loader's answer is an argument.
-- Audit (internal/audit/audit.go): the hash chain. What encodes and hashes a record's content is the
--   parameter `digest`: JSON and SHA-256 are not code of the repository.
-- Audit/Checkpoint (checkpoint.go): signed heads of a chain; `Crypto` holds Ed25519, base64, hex and JSON,
--   and `Sound` (Audit/Checkpoint/Anchor) is what the theorems on signing take from their documents.
-- Store (internal/store): the in-memory store, `Memory`. Each method is a function from the store to
--   the store and its result; the mutex makes a method one step, so what concurrent processes do is
--   a sequence of calls (Store/Calls, Store/Runs). State is the store itself; Debits, Credits,
--   Reversals, Parking and Expiry are memory.go; Claims is memory_claims.go; Ledger memory_audit.go; Checkpoints memory_checkpoints.go;
--   Health memory_health.go; Endpoints and Webhooks memory_webhook.go. Evolution, Lifecycle, Sweep,
--   Claiming and the child modules hold proofs.
-- Webhook (internal/webhook/retry.go, dispatcher.go): the schedule of retries and the verdict on an
--   attempt. The network's answer and the jitter are arguments.
--   Payload (payload.go) is what is sent; JSON is not code of the repository.
-- Evidence (internal/evidence/evidence.go): why a verdict was reached; weights are exact hundredths.
-- Provider (internal/provider/provider.go): the registry of rails; an adapter is a function.
--   Settlement (settlement.go) is the adapter for settlement files: Parse is one file, Load the
--   directory, Answer the question; Files and Absence hold proofs. `Library` and `Disk` hold what Go's
--   library and the disk give.
-- Pipeline (internal/pipeline/pipeline.go): the queue before the engine. What producers, workers,
--   tickers, cancellation and closing do is a step relation; Grouping, Conserved, Drain, Shutdown,
--   Workers and Cancelled hold proofs.
-- Recorder (internal/health/recorder.go): the counters of what the pipeline took in and lost, on their
--   way to the store. Whole, Counted, Kept and Gaps hold proofs.
-- Auth (internal/auth/authenticator.go, key.go): the check of an API key and its cache; `Hashing` holds
--   argon2, SHA-256, base64 and Go's text functions. Trust holds proofs.
-- Correlate (internal/correlate/correlate.go): the engine. Credit is one credit against the store; Apply
--   is one batch of events; SHA-256 is the parameter `sha`, and what the loads of the rules and the
--   salt give are arguments. Early and Account hold proofs.
-- Service/Dispatcher (internal/service/dispatcher.go): one attempt to deliver, with what it writes back
--   to the store.
-- Service/Checkpointer (checkpointer.go): the rounds that sign the heads of the chains. Tenant and Looked
--   are one tenant's turn, Rounds the round.
-- Service/Detector (detector.go): the sweep. Verdict is what is made of one claimed transaction, Queue what
--   is queued for it, Alerts the silence and deadline alerts, Sweep the whole. Frames, Rail,
--   Reversals, Notices, Advice, Offers and Race hold proofs.
-- Tests: each property, applied at a concrete input.
--
-- How the parts meet: a request is authenticated (Auth) and its events wait in a queue (Pipeline), whose
-- losses are counted (Recorder) and reach the sweep as gaps; a debit or a credit is validated and screened (Domain), applied to the store
-- (Correlate, Store/Debits, Store/Credits), swept when its window ends (Store/Expiry), and its
-- reversal is claimed by one worker (Store/Claims), sent through the delivery queue (Store/Webhooks, Service/Dispatcher) and recorded
-- (Store/Ledger, Audit), whose heads are signed (Service/Checkpointer). The sweep (Service/Detector)
-- asks the rail (Provider) and weighs what it knows (Evidence) before it advises a reversal.
--
-- Bounds: no definition uses fuel; every loop is structural on the list that the source ranges over.
-- Amounts and their sums are 64 bits wide and wrap; counters and identifiers are unbounded. Limits and
-- durations that the source replaces by a default when they are not positive are natural numbers, with
-- 0 for all of these.
--
-- Not modelled: the Postgres store (SQL), HTTP ingest, accounts and the making of API keys, the clients that
-- ask payment rails over the network, reports, the command line, the SDKs and the dashboard; of the
-- core, the rule store, the rate limit and the drills. A sequence of calls (Store/Calls)
-- is over the methods on transactions, parked credits and health; the other methods of the
-- store have state of their own and are treated in their own modules.
pub mod Common
pub mod Domain
pub mod Rules
pub mod Audit
pub mod Store
pub mod Webhook
pub mod Evidence
pub mod Provider
pub mod Recorder
pub mod Correlate
pub mod Pipeline
pub mod Auth
pub mod Service
pub mod Tests

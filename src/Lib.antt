-- ===== src/Lib.antt =====
-- NewHumans: the world server. Money that an external authority, Knowledge Ball (KB), owns it never
-- moves itself: it asks through the economy port, records what it asked for as a saga, repeats a
-- request under the same idempotency key when an answer is lost, and gates what an agent may do on
-- the energy it has. Beside that it keeps its own ledger of a world's money, the relationships
-- between entities, and the ports to knowledge and memory that others provide.
--
-- Parts, and the files that model them (code paths start at the repository's root):
-- - Saga: src/shared/cross_product_saga.js, the state machine of one cross-product operation.
--   `createSaga` is create_saga, `observeFinancialResult` is observe_financial_result,
--   `markLocalTransitionCommitted` is mark_local_transition_committed,
--   `requestActivationCompensation` is request_activation_compensation, `assertSagaInvariant` is
--   assert_saga_invariant; `buildFinancialCommand`, `buildEconomyPortRequest` and
--   `reconciliationPlan` are the readers in Saga.Transitions. Saga.Reach has the step relation.
-- - SagaStore: src/services/cross_product_saga_store.js, the saga in the database: the saga row, the
--   outbox row of one operation and the inbox row of its key (SagaStore.Rows). `claimSagaOutbox`,
--   `recordSagaDispatchFailure` (SagaStore.Failures), `recordSagaFinancialResult`
--   (SagaStore.Results), `prepareSagaIntent` and `markPersistedSagaLocalTransitionCommitted`
--   (SagaStore.Transitions) are functions on these rows; each is one database transaction. The saga in
--   a row goes through Saga.observe and Saga.mark_local_transition_committed.
-- - SagaWorker: src/services/cross_product_saga_worker.js, one pass of the worker on those rows:
--   `dispatchSagaOutboxOnce` (SagaWorker.Dispatch) claims, calls the port and records the reply;
--   `reconcileSagaOnce` (SagaWorker.Reconcile) looks an unknown outcome up. The port, a fresh request id
--   and the lookup are arguments.
-- - Idempotency: src/integrations/knowledge-ball/idempotency-retry.js, the identity of an attempt
--   (scope key, payload digest) and the decision whether it is repeated. Saga uses its digest.
-- - EconomyPort: src/ports/economy_port.js, the contract of requests to KB and of its responses, and
--   the port around an adapter (EconomyPort.Port). Saga checks its own requests with
--   assert_economy_port_request.
-- - Kb: src/shared/kb_errors.js and src/kb/readiness.js, the errors of KB and what it can serve.
--   `buildKbReadiness` is build_kb_readiness, `evaluateKbCapabilityAccess` is
--   evaluate_kb_capability_access. EconomyPort checks the error codes of a response with it.
-- - Sandbox: src/services/sandbox_contract.js, what a sandbox may be asked and may answer.
--   `assertSandboxExecutionRequest` and `assertSandboxExecutionResult` are the definitions of the same
--   words in Sandbox.Request and Sandbox.Result, `classifySandboxExit` is in Sandbox.Exit.
-- - Energy: src/domain/energy.js and src/shared/constants.js, balances in millionths of E and what
--   they allow.
-- - Ledger: src/services/economy.js and `createEntity` of src/services/core.js, the wallets, journals,
--   postings, transfers, reservations and fees of one world (Ledger.Rows). `createBalancedJournal` is
--   create_balanced_journal (Ledger.Journals), with the database's trigger that moves the balances;
--   `mint` and `transfer` are in Ledger.Transfers, `reserve`, `releaseReservation` and
--   `settleReservation` in Ledger.Reservations, the daily fee and the activation in Ledger.Fees.
--   Ledger.Books says what a ledger keeps, Ledger.Reach has the sequences of operations, Ledger.Undo a
--   reservation that is released, Ledger.Retries a call that is repeated.
-- - Core: src/services/core.js: `appendEvent` (Core.Events), the event log that the ledger and the
--   relationships write to, and `runCommand` (Core.Commands), the transaction around every command
--   with its action row under an idempotency key. The work of a command is an argument, a function on
--   the tables and the log; the table of entities and what jsonb keeps of a result are parameters, and a
--   command carries the hash of its payload.
-- - Social: src/services/social_relationships.js, relationships as append-only versions under a header
--   (Social.Rows). `recordRelationship` and `appendRelationshipVersion` are in Social.Records,
--   `proposeMutualRelationship` and `confirmMutualRelationship` in Social.Mutual, the readers in
--   Social.History. Social.Evidence is the database's own check of a version, the deferred trigger in
--   migrations/0523_m04_relationship_data.sql; it is written down apart from the service.
-- - Knowledge: src/ports/knowledge_port.js, the checks on both sides of a call of a knowledge provider
--   and the errors it ends in. `createKnowledgePort` is create_knowledge_port (Knowledge.Port); the
--   checks are in Knowledge.Refs, Knowledge.Inputs and Knowledge.Answers.
-- - Memory: src/ports/memory-port.js, which builds requests to the memory authority from a trusted
--   binding (Memory.Bindings); the four builders are in Memory.Requests.
--
-- - Js: what the code uses of the language: values, fields of objects in their own order, strings as
--   UTF-16 code units, encodeURIComponent, JSON.stringify, a copy through JSON, sorting by key.
-- - Prelude: Boolean tests on numbers, results with the codes of thrown errors, the integers.
-- - Platform: SHA-256 of node:crypto and Date.parse, which are parameters of every definition that
--   uses them, as node:path and toLowerCase are in Sandbox. No theorem assumes anything of them.
--
-- Representation. A thrown error is `err` of its code, and its message is left out. A value that
-- arrives from outside is a Js Value, so that each type test of the code is one of the model. An
-- object is a list of fields in insertion order. A number is an integer, a fraction with its text,
-- or not finite; a BigInt is an integer. Dates, class instances and BigInts inside a payload are
-- one constructor, instance_of, which the code refuses; where the code writes one as JSON, it is taken
-- by its own fields, so a toJSON and the TypeError of a BigInt are left out. Arrays have no holes, and
-- -0 is 0. Strings hold Unicode scalar values, so lone
-- surrogates, on which encodeURIComponent throws, do not occur. All loops are structural: there is
-- no fuel.
--
-- In the store one value of SagaStore.Rows.Store is the rows of one operation, and one function is one
-- transaction on them; the row locks of the code exclude that two transactions interleave on a row.
--
-- In the ledger and the relationships one value is the rows of one world, and one function is one
-- transaction: an error returns no rows, since the database rolls back. A fresh identifier is a
-- counter of the state or an argument. Row locks, the range of bigint, the payload of an event and
-- its row in the outbox are left out. The dates that social_relationships.js compares are numbers
-- of milliseconds; an argument is a text or left out; toUpperCase and the reading of a date are
-- parameters (Social.Rows.Host). The exact time of an action and its ISO text are one number. A command
-- acts by an action of its own actor, which src/services/core.js has inserted; that the action has
-- succeeded, which it marks after the operation, is left out of the trigger, as is the trigger's cast
-- of `occurred_at`, which is a number here. The deferred triggers on proposals and confirmations are
-- left out.
--
-- A provider of knowledge is a function from an input to a reply or a throw. A request to memory is a
-- record, whose fields that the code leaves out are undefined. Number.isInteger of a number whose
-- text has an exponent, from 10^21 on, is taken to be false.
--
-- Not modelled: the runtime, its policy and its scheduler, the gateway and its model adapters, the
-- services for contracts, escrow and social space, which are mostly SQL; the credential vault and the
-- identity binding; the migrations but for the two triggers above, HTTP, the web client, timers, the
-- scripts of the build and the tests.

pub mod Core
pub mod EconomyPort
pub mod Energy
pub mod Idempotency
pub mod Js
pub mod Kb
pub mod Knowledge
pub mod Ledger
pub mod Memory
pub mod Platform
pub mod Prelude
pub mod Saga
pub mod SagaStore
pub mod SagaWorker
pub mod Sandbox
pub mod Social

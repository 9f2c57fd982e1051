-- ===== src/Lib.antt =====
-- Virtual Haibin: the parts of the repository that decide whether an agent may spend a human's
-- money, and the store that keeps account of it.
--
-- A human signs a purchase permit (packages/mandate). An agent asks the authority for one purchase
-- under it. The authority evaluates the request against the permit (packages/policy), fetches the
-- service's 402 challenge and validates it (apps/authority/src/payment-challenge.ts), reserves the
-- amount in its store (apps/authority/src/store), pays through a provider (packages/payments), and
-- confirms, fails or reconciles the invocation. The models follow this division:
--
-- Decimal.antt: the atomic amounts, the pattern of packages/policy/src/purchase-permit.ts, the
-- CHECK `atomicCheck` of the store's columns, and BigInt(text) and toString(). The fuel `suc n` of
-- `decimal_codes` is enough, since each digit divides the number by ten. The conversions are those
-- of texts of digits, which the columns and the guards ensure where the code converts.
-- Mandate.antt, Payments.antt, Evidence.antt: the records of packages/mandate, packages/payments
-- and packages/evidence that the other parts exchange. Protocol names and literal versions are
-- left out, and so are the union tags that a constructor stands for.
-- Validation.antt and its children: the validation of untrusted JSON in packages/mandate/src, by
-- validate.ts, operation.ts and authorization-request.ts, over a data type of JSON values; the
-- patterns are tests on code points, and the message of a failure is the field that it names.
-- Policy.antt: `evaluatePurchasePermit` and `evaluateExactOperation`.
-- Challenge.antt: `selectAndValidateChallenge`, the registry of paid services and the paid requests.
-- Settlement.antt: `checkSettledTransaction` of packages/payments/src/settlement-check.ts.
-- Transaction.antt: `validateExactPaymentTransaction` of packages/payments/src/transaction-validator.ts,
-- the check of a payment before it leaves the authority, over the decoded message.
-- ServiceCheck.antt: `checkServiceAuthorization` of packages/evidence/src/service.ts, by which a paid
-- service checks that the authority authorized the very request that it received.
-- Sessions.antt: `SessionStore` of apps/agent/src/sessions.ts, the sessions of the agent's HTTP API.
-- Its loops are recursion on the entries, or on their number as fuel, which is enough since each
-- round removes one.
-- Store.antt and its children: `SqliteAuthorityStore` of apps/authority/src/store/sqlite-store.ts.
-- A database is three lists of rows; a method is a transaction body in a monad of state and
-- exceptions, and the transaction keeps the database where the body throws. A call of the clock is
-- an argument. PRIMARY KEY and FOREIGN KEY are tests of the inserts, the CHECKs tests of every
-- write. Transactions of one database are serial, so a run of the store is a list of calls.
-- Store/Ledger holds what is proved of it: `IsSound` is the invariant, `Edge` the step relation on
-- one invocation, `Run` a sequence of steps and `perform_all` a list of calls.
-- Authority.antt and its children: `AuthorityService` of apps/authority/src/authorize.ts, over the
-- store. Authority/Monad.antt has the state, the database and the payments that were transmitted, and
-- the schedule: each call of the store is one step, before which any calls of other requests and
-- processes may come, and at which the process may have died; Authority/Authenticate.antt is
-- `#authenticate`, Authority/Decision.antt the policy and the decision, Authority/Gather.antt the
-- outbound request and its challenge, Authority/Binding.antt the outbound check, the acknowledgement
-- and the view of a budget, Authority/Pay.antt `#pay`, Authority/Process.antt `#process` and
-- `authorize`, Authority/Reconcile.antt the reconciliation, Authority/Receipts.antt the receipts. The
-- provider is a record of functions: what `execute` does, by its ordering contract, is a plan that
-- gives up, or records its attempt and then transmits. The single flight of a reconciliation, the logs
-- and the audit log are left out. Authority/Keeps holds the proof that the service keeps the store's
-- invariant, by rules on the monad, Authority/Sends what it transmits, and Authority/Completes the run
-- of `#pay` that nothing interferes with.
--
-- Parameters stand for code that is not of the repository: the URL parser of the platform, SHA-256
-- over texts, canonical JSON, the encodings of bodies, the decoders of transactions and the
-- derivation of token accounts, the test of addresses; the parser of service headers and the
-- verification of signatures, which are not modelled, are parameters too (`Externals`). The lemmas
-- on the store assume that the fingerprint of a reservation determines the grant that it names
-- (`IsCoherent`): it is a digest that covers the permit.
--
-- The CHECKs of the columns read a text as SQLite does, up to its first U+0000;
-- `big_int` reads it so too, where BigInt throws, and `is_beyond` refuses to reserve such an amount.
--
-- Not modelled: HTTP servers, the web application, signatures and key files, migrations of older
-- databases, and the texts of reasons and errors that no code reads.
pub mod Prelude
pub mod Decimal
pub mod Mandate
pub mod Payments
pub mod Evidence
pub mod Policy
pub mod Challenge
pub mod Settlement
pub mod Sessions
pub mod ServiceCheck
pub mod Transaction
pub mod Validation
pub mod Authority
pub mod Store

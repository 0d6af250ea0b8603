-- ===== src/Lib.antt =====
-- The RFQ engine of services/rfq-engine: takers ask for quotes on an option, makers bid in a timed
-- auction, the best quote wins, and an accepted quote is executed on chain by one executor wallet.
--
-- The parts and their files (paths of code from the repository's root):
--
-- Base: numbers, Boolean tests, lists, results, JavaScript's Map (Base/Map), bigint (Base/Int),
-- strings as lists of code units (Base/Text) and decimal numerals (Base/Decimal).
-- Rfq/Types: services/rfq-engine/src/types.ts with the trade types of services/shared/src/rfq.ts
-- and the Action of services/shared/src/actions.ts.
-- Rfq/Stored: the stored forms of services/rfq-engine/src/store.ts (Schema, Rfqs, Quotes) and
-- their round trips (RoundTrip).
-- Rfq/Store: InMemoryRfqStore of store.ts; Store/Index states what its index of quotes promises,
-- Store/Log is JsonlRfqStore, and Store/Replay what a restart reads back.
-- Rfq/Quotes: services/rfq-engine/src/quotes.ts, with validateQuote described in Quotes/Admission,
-- validateTakerAccept in Quotes/Acceptance, their single checks in Quotes/Checks, and estimateOIFee
-- in Quotes/Fees.
-- Rfq/Submitter: ViemTxSubmitter of services/rfq-engine/src/chain.ts: its latches, described in
-- Submitter/FailClosed, and reconcileVerifyAndMatch (Reconcile), justified in Submitter/Attribution.
-- Rfq/Executor: services/rfq-engine/src/executor.ts.
-- Rfq/Auction: services/rfq-engine/src/auction.ts. Auction/State is the state of AuctionEngine;
-- Opening is openRfq, Bidding is submitQuote and cancelQuote, Lifecycle is closeAuction and
-- expireAccept, Execution and Terminal are acceptRfq, Recovery is getRfq's reconciliation and
-- recover. Best describes selectBestQuote, Collateral is about the cash reserved on an account, Once
-- about repeated acceptances, Reading is getBestQuote and stop. Sound is
-- the invariant of the engine, with a child for the handlers of each kind, the step relation
-- (Sound/Reachability) and the states that it reaches (Sound/Safety).
-- Withdrawal: services/rfq-engine/src/withdrawal-store.ts with the operation of withdrawal-types.ts:
-- the store and the stored form (Store), the claims of idempotency keys (Claims), the log (Log); and
-- WithdrawalEngine of services/rfq-engine/src/withdrawal.ts:
--   Amounts: toTokenUnitsFloor, toTokenUnitsCeil and tokenUnitsTo18Floor.
--   Gateway: the interface of services/rfq-engine/src/withdrawal-gateway.ts, of which the engine sees
--   the answers; Maximum: findMaximum.
--   Policy: assertFinalPolicy, about which Permission is (what it lets through: Permission/Allowed); Preview: preview and previewAtBlock.
--   Request, Prepare: prepare with its request, about which Prepared and Replayed are.
--   State: the engine's state; Submission: submit in two parts, before and after its reads of the
--   chain, with its claims, up to the point where it leaves the background task; Execution: executeSubmission, cut at its broadcast and at the receipt; Handlers: get and
--   recover; Reconcile: reconcileSubmitted and reconcileUnknown.
--   Events: a step for each of these, in any order, with restarts; Once follows an operation along
--   such steps (with children for the sending, the tasks and the induction), Settling is about the
--   end of a background task, Attribution about reconcileUnknown.
-- Directory: services/rfq-engine/src/subaccount-directory.ts: the in-memory store of one network and
-- the reader (Projection), syncOnce (Indexer), where it ends (Syncing, over Applying), what it does
-- after an interruption (Replayed) and to the accounts (Keeping), and listActiveAccountIds (Keyed).
-- Shared: services/shared/src/instruments.ts: the sub-ids of options (Instruments), with binary digits
-- as arithmetic (Bits) and the round trips (SubIds).
-- Rfq/Tests, Withdrawal/Tests, Directory/Tests and Shared/Tests: concrete data and the theorems at
-- work on it.
--
-- How code becomes definitions. A handler is a function from the state that it finds to the state
-- that it leaves, with its result. Where a handler awaits the chain, other handlers may run: the
-- model cuts it there and takes the later state as an argument (`before` and `after`, or two
-- functions, as with prepare_acceptance, commit_acceptance, announce and finish_acceptance).
-- Errors are values of a result type with a constructor for each message. Clocks and random
-- identifiers are arguments; identifiers are numbers, since they are only compared. Timers are
-- the times at which they fire. The engine's mutation of a stored RFQ just before it stores it
-- again is one write. A write to the store succeeds; failures of the disk are not modelled, but a
-- crash in the middle of an append is.
--
-- Parameters, for what is not code of this repository: viem's ABI decoding, signature recovery and
-- hashing (Viem, Encoders), JSON (Json), and the chain's answers (ChainReader, Outcome, Node,
-- ExecutionOutcome, Reconciliation).
--
-- Fuel: the printer of decimal numerals runs on `suc n` for the number `n`, which is more than its
-- digits. findMaximum has the source's own bound of 96 iterations. syncOnce runs its loop on as many
-- rounds as there are blocks from the first to the safe head, since each chunk has at least one.
-- Everything else is structural recursion.
--
-- Not modelled: the HTTP and WebSocket server with the views of a withdrawal, configuration,
-- account locks, the reads of the chain by viem behind the gateway of withdrawals and the
-- directory, the directory on DynamoDB and its worker, markets, resolveInstrument (its outcome is
-- an input of open_rfq), the sharing of concurrent reconciliations; reads of the chain and writes
-- to the disk that throw inside a handler of withdrawals; instrument names, units and the rest of
-- services/shared; the other services, the web application, the contracts of protocol and the
-- infrastructure. Submissions of an operation may overlap: other handlers run between the two
-- parts of submit. recover of the auction is modelled but is no step of the relation.
pub mod Base
pub mod Rfq
pub mod Withdrawal
pub mod Directory
pub mod Shared

-- ===== src/Lib.antt =====
-- The OVRFLO web client: the arithmetic, the planning and the guards that stand between the reads of
-- the chain and what an account is asked to sign. Paths are from the repository's root.
--
-- - Prelude: numbers, Boolean tests, lists, stable sorting, JavaScript's `bigint` (ℤ, with quotients
--   that truncate), results of calls that throw, and texts as lists of codes.
-- - Units, with Rounding: web/lib/units.ts. A branded amount is an integer, and the constructor's
--   check is `mint`. A call that throws returns `err` with a constructor for its message.
-- - LendingMath, with Amounts, Ids, Rates, Streams and Loans: web/lib/lending-math.ts. The loop of
--   `aprChoices` runs on fuel, `suc (max_bps - min_bps)` steps, enough for every positive step.
-- - Payoff, with Streamed, Seconds, Cover and Clock: web/lib/payoff.ts. A time is an integer, in seconds.
-- - Ladder, with Shape and Window: web/lib/ladder.ts. It takes its amounts from Units and LendingMath.
-- - ReadOutcome, with Refresh: web/lib/read-outcome.ts. The type of the data is a parameter.
-- - Router, with Depth, Route and Built: web/lib/router.ts. The comparison of two addresses is a
--   function of viem, and the parameter `same_address`; viem throws on texts that are no addresses,
--   which Borrow under Action models with the parameter `is_address`.
-- - Borrow, with Plan: `resolveSelectedTick` and `planSelectedBorrow` of web/lib/borrow.ts, which
--   take the ladder of Router.
-- - Action, with Value, Review and Amount: the types of web/lib/actions/types.ts, and
--   `revalidateReview` of web/lib/actions/registry.ts, which compares the JSON of two reviews; the
--   order of the keys is the platform's, and the parameter `key_before`. Amount is
--   `parsePositiveAmount`, with viem's `parseUnits` as a parameter.
-- - Under Action, the builders: Supply (web/lib/actions/supply.ts), Repay and Rate (repay.ts and
--   positions.ts), Convert (convert.ts), Claim (claim.ts) and Borrow with Reads (borrow.ts), from an
--   intent and a snapshot to a ready action or a refusal; Steps has their early returns. viem's
--   `encodeFunctionData` is the parameter `encode`. Registry is `buildAction`, which chooses among
--   them. Loans and Closing have the laws of repaying and closing, Built with Supplying, Converting,
--   Claiming, Borrowing and All what any built action rests on, Addresses when the comparisons of a
--   borrow throw, Returning when a borrow returns, and Completing when a supply and a borrow are
--   built.
-- - Convert, with Cap: web/lib/convert.ts. The text of an error is a constructor.
-- - Runtime, with Execution, Monitor, Signing, Safety, Fuel, Ends and Retry:
--   web/lib/action-runtime.ts. An asynchronous run is a tree of its calls, with a branch for each
--   answer; the wallet, the node and the cache are whatever answers. A comparison of accounts returns or
--   throws, and `comparison_threw` is a run that is rejected by it. Monitor says which calls are
--   allowed by what was answered before. The loop over authorizations runs on fuel, and one round
--   more than there are keys of authorizations is enough.
-- - ClaimAll, with Grouping, Complete and Whole: `planClaimAll` of web/lib/claim-all.ts; its maps
--   are association lists in the order of insertion. Preflight, Evaluate, Agreement and Ready under it: the preflight, on the
--   outcomes of ReadOutcome; a candidate is its text.
--   Reconcile compares two transactions of a plan.
-- - Queue, with Process, Commands and Machine: web/hooks/useTxQueue.ts. One function for each stretch
--   of `processAt` between two awaits, the commands `start`, `resume` and `acceptReview`, and a
--   machine that takes renders, commands and answers in any order; a task of an earlier generation
--   is answered to no effect. Sound and Reached have its invariant, Guarded what stands before a
--   request, History what is not asked for again, Succeeding how it ends.
-- - Watch, with Slippage, Closable and Repayable: web/lib/modal-logic.ts, positions.ts and watch-rows.ts, what
--   is shown of loans, positions and streams. A fraction stays in the ten-thousandths or hundredths
--   that the source computes. Closable and Repayable compare it with the builders of a
--   closing and of a repayment.
-- - Quote, with Presented: the preview and the quote of web/components/borrow/quote.ts. The block and
--   the simulation are whatever the node answers. Presented compares it with the builder of a borrow.
-- - StreamBook, with Paging and Folded: web/lib/stream-book.ts. A page is the identifiers of its rows.
-- - Refresh, with Cycle, Targets, Loans and Reads: web/lib/query-resource-registry.ts, with
--   `invalidateTouchedResources` and `keyMentionsAny` of invalidate.ts. The JSON of a key is the
--   platform's: the key of a read by wagmi is its text. Cycle is `refreshQueryResources`, and Reads
--   compares the plan with what `buildAction` builds.
-- - Tests: the theorems at concrete inputs.
--
-- A JavaScript number that counts or holds a rate is a natural number. Array methods are functions on
-- lists; `sort` is the stable insertion sort by the comparison that the source passes. Not modelled:
-- a throw of viem's comparison on a text that is no address, elsewhere than in Action/Borrow and
-- Runtime;
-- the contracts in src/, tests, generated code, the other React components and hooks, and the
-- network.
pub mod Prelude
pub mod Units
pub mod LendingMath
pub mod Payoff
pub mod Ladder
pub mod Borrow
pub mod Action
pub mod Runtime
pub mod ClaimAll
pub mod Queue
pub mod Watch
pub mod Quote
pub mod StreamBook
pub mod Refresh
pub mod Convert
mod Tests
pub mod ReadOutcome
pub mod Router

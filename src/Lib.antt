-- ===== src/Lib.antt =====
-- The liquid staking hub of Joe: holders bond a native token, the hub delegates it to validators
-- and mints shares, the token `steak`; holders send shares back to unbond. A proof of work moves
-- the delegations: who finds a nonce gives a validator mining power, and the delegations follow the
-- powers.
--
-- Parts, and the files that model them:
-- - contracts/hub/src/contract.rs: the entry points. `Contract` has `execute`, `receive` and
--   `callback`, and `Execute.Reply` has `reply`; each message goes to its handler.
--   `Contract.Frame` is about what the handlers leave alone, `Contract.Invariant` about what holds
--   of a storage, `Contract.Kept` about `execute`, and `Contract.Reach` about the storages that
--   follow `instantiate`; `Contract.Burns` puts the token's account of the hub beside the hub, with
--   what each handler burns in `Contract.Shares` and `Contract.Covered`, and `Contract.Refines`
--   holds `execute` against the queue as its users see it, which is `Ledger.View`, by the cases of
--   `Contract.Cases`; `Contract.Positive` is about the hub's life with a token that sends no empty
--   amounts. `query` is in `Queries`, `migrate` and `instantiate` with the version of cw2 are in
--   `Migrations`.
-- - contracts/hub/src/queries.rs: `Queries`, each query under its name. `Queries.Pages` and
--   `Queries.Walks` are about clients that ask for page after page, `Queries.User` about the raw
--   bound of `unbond_requests_by_user`.
-- - contracts/hub/src/migrations.rs: `Migrations`, with `Migrations.Batches` about the batches it
--   carries over, `Migrations.Versions` about the life of a contract of an earlier version through
--   calls and migrations, and `Migrations.Sound` about that of one of this code.
--   `Contract.Powerless` says what calls do where no total mining power is stored.
-- - contracts/hub/src/execute.rs: the handlers, under their names, in `Execute.Instantiate`,
--   `Execute.Bond`, `Execute.Harvest`, `Execute.Unbond`, `Execute.Reconcile`, `Execute.Withdraw`,
--   `Execute.Manage`, `Execute.Mining` and `Execute.Reply`. A handler takes the part of `env` and
--   `info` that it reads and the storage, and returns the storage and the response, or an error.
--   The `Ledger` modules treat the handlers of the unbonding queue together; `Ledger.Payout` says
--   what a request is worth, `Ledger.Exact` and `Ledger.Fair` hold the withdrawals against it, and
--   `Ledger.Due` and `Ledger.Promised` are about submitting a batch in time and about what a
--   reconciliation leaves to withdraw.
-- - contracts/hub/src/math.rs: `Math`.
-- - contracts/hub/src/state.rs: `State`, whose maps are the lists of `Store`.
-- - contracts/hub/src/helpers.rs: `Helpers`; `parse_coin` is in `Execute.Reply`.
-- - contracts/hub/src/types: `Types.Staking` and `Types.Coins`.
-- - packages/dpow-browser-miner/src/lib.rs: `Miner`, and `Miner.First` and `Miner.Accepted` about
--   its search and the test that the hub makes.
-- - packages/dpow-hash/src: `Miner.Hash`.
-- - packages/dpow-miner-cli/src/main.rs: `Miner.Cli`, whose threads move one lock of the mutex at a
--   time in any order (`Miner.Cli.Moves`); `Miner.Cli.Proofs` has the invariant, `Miner.Cli.Picks`
--   and `Miner.Cli.Race` the moves by which threads submit at once. `Miner.Cli` hashes with the
--   functions of `Miner`, which are the same code. `Miner.Cli.Joed` has the functions that run
--   `joed` and read the environment, and `Miner.Cli.Joed.Delivered` puts the hub at the other end.
-- - packages/steak/src/hub.rs: `Types.Hub` and `Types.Query`; `checked_mul_uint` of
--   packages/steak/src/lib.rs is in `Execute.Harvest`.
-- - contracts/token/src/lib.rs: `Token`, in front of cw20-base, which is a parameter. `Token.Hub` is
--   about the token that the hub orders; `IsCw20` states that cw20-base (0.13) keeps the minter that
--   a token is instantiated with.
-- `Prelude` has the results with errors, machine words and list functions that all share.
-- `Examples` has a concrete chain and storage on which the theorems are applied.
--
-- Errors and numbers. A result is `ok` or `err`. A panic aborts the transaction as an error does
-- and is the error `panic`: a u128 or u64 operation out of range (Cargo.toml sets
-- overflow-checks), a division by zero, an index out of range. A storage that an error leaves is
-- dropped, as the chain drops it.
--
-- The chain. Queries, the validation of addresses, `multiply_ratio`, `from_ratio`, the product of
-- a decimal and SHA-256 are not in the repository. They are the record `Cosmwasm`, a parameter;
-- `IsCosmwasm` states what their documentation says: a ratio is the quotient rounded down, a panic
-- where it has no denominator or does not fit 128 bits, and a digest has 64 hexadecimal digits.
-- `char::is_alphabetic` and `Uint128::from_str` are parameters of `Execute.Reply`.
--
-- Loops are structural recursion. The loop that matches surpluses with deficits (`match_loop`)
-- runs on as many rounds as the two lists have elements, which is enough since each round removes
-- one of them. The browser's search runs on `max_tries + 1` turns, which is enough as each turn
-- raises the nonce by one; a client walks on one page more than there are values; `search_pow`
-- runs along the nonces that are drawn.
--
-- The miner program. Each operand of `||` and `&&` in a condition is taken to give its lock back
-- before the next one takes it, and the runtime to run all tasks in parallel. A panic ends the
-- thread; no lock is held then. What `joed` answers, and whether it runs, are choices of a move.
-- The operating system and serde_json are the record `System`, a parameter, and an action takes a
-- world to a world and a result. `IsJoed` states what a `joed` does that runs on the hub's chain,
-- with a command line that `IsQuery` or `IsExecution` reads as a query or an execution of the hub.
--
-- Not modelled: the waits, the output and the drawing of random text of packages/dpow-miner-cli,
-- which are I/O; `checked_add` and `to_decimal256` of packages/steak/src/lib.rs, which nothing
-- calls; packages/dpow-browser-miner/src/utils.rs, a panic hook; the encoding of responses and of index keys, which libraries do; the tests. Free text of
-- errors is left out.
pub mod Prelude
pub mod Types
pub mod Math
pub mod Store
pub mod State
pub mod Ledger
pub mod Helpers
pub mod Execute
pub mod Token
pub mod Queries
pub mod Migrations
pub mod Miner
pub mod Contract
pub mod Examples

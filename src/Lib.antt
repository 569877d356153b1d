-- ===== src/Lib.antt =====
-- The Bitcoin Wallet Kit: a model of the wallet's own logic, and its correctness.
--
-- The workspace is a set of crates. Coins (coin/) are what scanning finds and spending consumes; the
-- transaction builder (tx/) selects coins, splits their value into outputs, change and fee, checks
-- the result and hands out a PSBT. The stores (persist/) keep rows of bytes behind a cache and write
-- them back on a flush. The Electrum wallet (electrum/) derives and watches addresses, validates
-- headers and aggregates the payment history of its accounts. Its coin store turns what the server
-- reports into transactions, coins and claims of confirmation; its reconciler checks each claim against
-- the validated headers and the merkle proof of the transaction, and stores the outcome. The silent
-- payment wallet (sp/) scans blocks and keeps its progress in the same stores, which it reads back at
-- the next start.
--
-- Which file models which part:
-- - Coin.antt, with Coin/: coin/src/lib.rs.
-- - Tx/Types.antt: the data of tx/src/transaction.rs and tx/src/recipient.rs. Tx/Fees.antt is
--   `process_fees`, Tx/Weight.antt the weight estimate, Tx/Checks.antt the two sanity checks,
--   Tx/Process.antt `process_transaction` and `select_inputs`, Tx/Finalize.antt `finalize` and
--   `build_psbt`, all of tx/src/transaction.rs.
-- - Tx/Builder.antt: `TxBuilder` of tx/src/tx_builder.rs, from a template to a PSBT, with `pay` and
--   `sweep`; `build_payment` is the end of `_pay_with_label`.
-- - Tx/Select.antt: `Selection`, `all_coins_combinations` and `select` of tx/src/coin_selection.rs.
-- - Persist/Types.antt: the store names and errors of persist/src/lib.rs. Persist/Backend.antt: the
--   trait `PersistenceBackend` of persist/src/backend/mod.rs. Persist/RamStore.antt: the cached store
--   of persist/src/storage/ram.rs; its child modules relate the cache to the rows of the backend.
--   Persist/Memory.antt is a backend in memory for the examples.
-- - Sp/ScanState.antt: the scan progress of sp/src/scan/state.rs over the cached store, and `find_fork`
--   of sp/src/scan/mod.rs.
-- - Electrum/History.antt: the payment history of electrum/src/history.rs. Electrum/Headers.antt: the
--   header checks of electrum/src/header_validator.rs and electrum/src/checkpoint.rs.
--   Electrum/Addresses.antt: the address store of electrum/src/address_store.rs. Electrum/Fanout.antt:
--   the listeners of electrum/src/fanout.rs.
-- - Electrum/Types.antt: transactions, claims, and the functions of the crate `bitcoin`.
--   Electrum/TxStore.antt: electrum/src/tx_store.rs. Electrum/Updates.antt (`SpkHistory`, `Update`),
--   Electrum/Claims.antt (the pending claims) and Electrum/CoinStore.antt, with Electrum/CoinStore/:
--   electrum/src/coin_store.rs. There Generate.antt is `generate`, with its events and its metadata,
--   Balance.antt `spendable_coins`, Listener.antt what the server's answers do, Chain.antt and
--   Passes.antt the passes over the chain.
-- - Electrum/Merkle.antt: `verify_merkle_branch`, and Electrum/HeaderStore.antt, with
--   Electrum/HeaderStore/: the header store, both of electrum/src/header_store.rs. Views.antt are the
--   queries, Mutations.antt the changes under the writer's token, Branch.antt the replay of a chain and
--   the candidate of a reorganisation, Reorg.antt the check of a loaded chain, `prepend` and the end of
--   `resolve_reorg`.
-- - Electrum/Reconcile.antt: the handlers of electrum/src/reconcile.rs. Electrum/Reconcile/Steps.antt
--   has the calls that reach the coin store, those of the listener included, in any order; the
--   draining of the channels, the stop flag and the waiting of the loop are left out.
-- - Common.antt, with Common/: Boolean tests, lists, machine words, `Result`, `BTreeMap` as a sorted
--   association list (OrdMap), `sort_by` as a stable sort (Sort), code that may panic (Fault).
--
-- Conventions. A number is a natural number and the arithmetic on `u32` and `u64` wraps, as in the
-- release build of the workspace, which does not turn overflow checks on. A record stands for a
-- struct, a data type for an enum; a method that changes its object returns the new one. A panic is
-- `none` of an `Option`. Functions of the crates `bitcoin` and `miniscript` are parameters:
-- `to_vbytes_ceil`, and the records `Script` and `Miniscript` of Coin.antt and `Crates` of
-- Tx/Finalize.antt. The shuffles stand in `Crates` too; a theorem takes them to be permutations. The
-- comparison of two coins is a parameter, and a recipient carries the script that it would create.
-- Random draws and coin selectors are parameters, and so are the hashes, targets and network parameters
-- of a header (`Consensus` of Electrum/Headers.antt), the derivation of addresses, the queries of a
-- chain, and `serde_json`. A storage backend is a record of its row operations, whose documented behaviour is
-- the record `RowLaws` of Persist/Backend/Flush.antt; its batch is the default one of the trait, which
-- deletes and then puts row by row. A transaction is named by a number, a script and a block hash by
-- its codes; a `HashSet` is a sorted set. A lock is held over a whole handler, so a run is a sequence of
-- handlers. The time of day is an argument, what the code sends is a list, and the work of a chain is an
-- unbounded number. A handler reads the header store through the record `HeaderView`, which
-- Electrum/HeaderStore/Views.antt takes from the store. No definition needs fuel: every loop runs over
-- a list or a count.
--
-- Not modelled: of tx/ the setters and the test methods of the builder, the recipients over a change
-- tip, the templates as JSON and the silent payment fields of a PSBT; of the coin store its
-- dump and restore and its getters, and the origin that the feature `sp` adds to its events;
-- of the header store the worker that asks a server for headers, the routing of merkle proofs to their
-- requesters, the progress events and the files; the thread of the reconciler; the passes of a scan in
-- sp/, signing, hardware wallets, and all that talks to a server, a file or a device.
pub mod Common
pub mod Coin
pub mod Electrum
pub mod Persist
pub mod Sp
pub mod Tx

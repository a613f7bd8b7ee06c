-- ===== src/Lib.antt =====
-- Party Mix is a mixer for Shielded CSV coins: users send it coins, it credits them in an
-- off-chain ledger, moves the coins into pool accounts and pays withdrawals with new coins. This
-- library models the mixer and the protocol predicates that it stands on.
--
-- The parts, by their files under partymixrust/src:
--
-- shielded_csv/primitives.rs is ShieldedCsv/Primitives (`hash`, `Commitment::commit`, and the
-- checks of `Signature`, `AccV` and `ToSAccV`), ShieldedCsv/Accumulators (`AccM`, `ToSAccM`)
-- and, for the functions of `PCD`, Crypto/Pcd. The checks are a record `Primitives` that the
-- predicates take, and `stubs` is that record with the bodies of the source.
-- shielded_csv/protocol.rs is ShieldedCsv/Data (types), ShieldedCsv/Payment (`payment_init`,
-- `payment_init_newacct`, the finalizations), ShieldedCsv/Compliance (the compliance
-- predicates) and ShieldedCsv/Debug (both in a debug build).
--
-- types.rs is Types, wallet_state.rs is Wallet, pool.rs is Pool, mixer_node.rs is Node,
-- deposit_handler.rs is Deposit, withdrawal_handler.rs is Withdrawal, publisher.rs is Publisher,
-- communication.rs is Communication, crypto/nisshac.rs, crypto/pcd.rs and crypto/accumulators.rs
-- are Crypto/Nisshac, Crypto/Pcd and Crypto/Accumulators, and crypto/mock.rs is Crypto/Mock,
-- except for `MockPcd`, which is in Crypto/Pcd, as is `verify_coin_proof` of wallet_state.rs.
-- extensibility.rs is Extensibility, api/messages.rs is Api, and api/http.rs is Api/Http, with
-- the state that main.rs gives the server; Main is what main.rs builds. Mixer puts the handlers
-- together: sequences of their calls and of the pool manager's account creation on one wallet,
-- with a tally of what they did, and the way of one deposit to a delivered coin, which is the
-- flow of tests/integration.rs, with the messages of communication.rs around it. The children of
-- a module hold the proofs about it, and Tests the runs on concrete data.
--
-- How they interact: the deposit handler asks the node to accept a payment, credits the ledger
-- through the pool manager and puts the coin into the wallet; the withdrawal handler debits the
-- ledger through the pool manager and has the node's backend prove a new coin; the node scans
-- blocks into its wallet's nullifier store and history. The node owns a wallet, and the handlers
-- borrow another one mutably beside the node, so the two are separate arguments here too. The
-- publisher's aggregates come to the node in blocks, whose order, with that of reorganisations,
-- is the relation `Leads` of Node/Reachable. The server is a state of its own: main.rs drops the
-- node and the pool manager, and no handler of the HTTP interface calls the others.
--
-- Choices of the model. A method that mutates its receiver or a borrowed wallet returns it,
-- with its result. `Result` is a data type, `None` is `none`, and a call that may panic has an
-- `Outcome`. Numbers are natural numbers. The arithmetic is that of a build where overflow
-- wraps: plain `+`, `*` and `sum` on u64 are taken modulo 2 ^ 64 and the u32 depth modulo 2 ^
-- 32; checked and saturating operations are written out. ShieldedCsv/Debug has payment_init
-- and the compliance predicate in a debug build, where the additions of the balance and the
-- spent coins panic when they overflow. Byte arrays and the newtypes over them are lists of
-- numbers, and an index of two bytes is a pair. A HashMap is an association list in which an
-- inserted key replaces its value; its order stands for the map's order of iteration. Loops
-- are recursion on their lists, so there is no fuel. A fresh Uuid, the clock's time and random
-- bytes are arguments of the operations that draw them. A handler of the HTTP interface takes
-- each of its locks once, so a run of the server is a sequence of calls, in whatever order
-- they come.
--
-- What comes from outside is a parameter, the record `Platform`: the x-only keys of secp256k1
-- with their equality and serialization, `Message::from_digest_slice`, the standard library's
-- default hasher, the text that `Transaction::hash` formats, Uuid and DateTime. The mock
-- accumulators take the text that they format as an argument too. The PCD and NISSHAC backends,
-- the JSON codec and the crate hex are records of their operations. Where a theorem needs that
-- only 32 bytes are a digest, as secp256k1 documents, `WantsDigest` says so.
--
-- Not modelled: logging and audit events, which change no state; the listener, axum's routing by
-- path and the JSON of serde, which stand outside the repository; the runtime of main.rs; key
-- generation of primitives.rs, which only calls secp256k1; the channels of communication.rs, of
-- which the repository has the interface and no implementation.
pub mod Prelude
pub mod ShieldedCsv
pub mod Types
pub mod Wallet
pub mod Crypto
pub mod Communication
pub mod Node
pub mod Pool
pub mod Deposit
pub mod Withdrawal
pub mod Publisher
pub mod Extensibility
pub mod Api
pub mod Mixer
pub mod Main
pub mod Tests

-- ===== src/Lib.antt =====
-- Seal: threshold identity-based encryption with key servers that check an on-chain policy.
--
-- The program. A client splits a fresh base key into one share per key server
-- (crates/crypto/src/tss.rs, over the field of gf256.rs with the polynomials of polynomial.rs),
-- encrypts each share for its server by identity-based encryption (ibe.rs), derives from the base
-- key the key of a symmetric encryption (dem.rs), and encrypts the message (lib.rs). A key server
-- checks a request and hands out user secret keys; whoever has enough of them recovers the shares,
-- combines them, derives the key again and decrypts. ElGamal (elgamal.rs) carries user secret keys
-- to the user. The key server of a committee holds a share of a master key: the aggregator asks the
-- members, checks their encrypted shares and aggregates them to the encrypted key of the committee.
--
-- The files.
--   Base        shared names: lists over native numbers, bytes, outcomes of Rust calls.
--   External    what other crates provide, as records of functions with the laws that the code
--               relies on: a group, BLS12-381 with its pairing, the hashes and AES-256-GCM.
--   Gf256       crates/crypto/src/gf256.rs: the tables, and every operator by its name there.
--   Polynomial  crates/crypto/src/polynomial.rs.
--   Utils       crates/crypto/src/utils.rs: xor and transpose.
--   Tss         crates/crypto/src/tss.rs: split, combine, interpolate and their checks.
--   Dem         crates/crypto/src/dem.rs: counter mode with a MAC, AES, and the choice between them.
--   Elgamal     crates/crypto/src/elgamal.rs.
--   Ibe         crates/crypto/src/ibe.rs.
--   Seal        crates/crypto/src/lib.rs: seal_encrypt and seal_decrypt with all their steps.
--   Sdk         crates/seal-sdk/src: the keys that a client accepts from replies, and decryption with
--               them (lib.rs, types.rs).
--   Committee   crates/seal-committee/src/move_types.rs: the committee, its members and party ids.
--   KeyServer   crates/key-server/src: errors.rs (the errors and their replies), time.rs, common.rs
--               (the kinds of clients and the cache of packages), valid_ptb.rs (the transactions that
--               are evaluated), key_server_options.rs (the modes and the validation of the clients),
--               master_keys.rs (loading, the lookups, and the share of the current version), and of
--               server.rs and externals.rs the checks of a request, the reply, and the task that
--               follows the version of the committee (Requests, VersionUpdater).
--   Aggregator  crates/key-server/src/aggregator: utils.rs (the checks and the aggregation of the
--               replies) and server.rs (the handler of a request, in Aggregator/Server).
--   Tests       runs of the models and the theorems at concrete inputs.
--
-- The model. A u8 is a number below 256, an array or a vector a list; a call that can fail returns
-- an Outcome: a value, a FastCryptoError, or a panic, and a body that uses expect, unwrap or an
-- index is translated with the panic. A random number generator is a function of its state, and the
-- state goes from call to call in the order of the source. The map of user secret keys is a partial
-- function of object ids. The generic array length of split and combine is an argument, and
-- seal_encrypt and seal_decrypt use 32. The only fuel is that of chunks, the number of elements,
-- each chunk taking at least one of them.
--
-- The key server's calls return an Answer with an InternalError, and the aggregator's one with an
-- ErrorResponse; a text that the source formats with numbers or ids is its format string. Hash sets
-- and maps are lists of what was inserted; where the order of a map's entries matters, it is a
-- parameter (but for the map that groups the encrypted keys by id, which keeps the order of
-- insertion). The types of a Sui transaction are a parameter with the patterns that the server
-- matches, and the environment variables are a record of what they decode to. The chain, the clock,
-- the signatures, what the members' servers send, and the order in which calls complete are
-- parameters. The version of a committee changes by a step relation, since requests read it while
-- the task runs.
--
-- Not modelled: serialisation, network access, metrics, start-up, the resolution of names, the
-- staleness check that is put before a transaction, the command-line tools, the metrics proxy and
-- the Move contracts. Secrecy is not stated: the theorems say what the code computes.
pub mod Base
pub mod Gf256
pub mod Polynomial
pub mod Utils
pub mod Tss
pub mod External
pub mod Dem
pub mod Elgamal
pub mod Ibe
pub mod Seal
pub mod Sdk
pub mod Committee
pub mod KeyServer
pub mod Aggregator
mod Tests

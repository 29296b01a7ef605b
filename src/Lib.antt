-- ===== src/Lib.antt =====
-- Models of the storage helpers, the number types and the virtual machine of CosmWasm, with theorems
-- about them.
--
-- The parts and how they interact. A contract stores bytes under byte keys: the trait `Storage`. The
-- package cosmwasm-storage puts keys behind prefixes of namespaces, and typed buckets, singletons and
-- sequences behind those. The VM runs a contract, shares an environment with its imports, and charges
-- gas for them; lists of byte strings cross the boundary to the contract as sections. Numbers are
-- integers of fixed width. The VM compiles contracts and keeps the modules in three caches,
-- and checks the code before it is saved. Two contracts of this repository are here: one issues
-- tokens for a stake, and is built on the buckets and the singletons; one is a queue of numbers over
-- the bare storage.
--
-- Which file models what.
-- - Base, with its children, has the Boolean tests on the native numbers, lists, results of code that
--   may panic (`Outcome`), errors (`Result`) and calls that may do either (`Call`).
-- - Bytes and BTreeMap model byte strings in lexicographic order and the map of the standard library,
--   as its entries in key order.
-- - Storage is the trait of packages/std/src/traits.rs as an interface: its operations (`Storage`) and
--   its laws (`IsStorage`), which read a storage as a sorted map. Memory is `MemoryStorage` of
--   packages/std/src/storage.rs. An iterator is the list of what its `next` gives; an
--   item is an `Outcome`, since a mapped item may panic.
-- - LengthPrefixed, Namespace, Prefixed, TypeHelpers, Bucket, Singleton and Sequence are the files
--   length_prefixed.rs, namespace_helpers.rs, prefixed_storage.rs, type_helpers.rs, bucket.rs,
--   singleton.rs and sequence.rs of packages/storage/src. A function there has the name of the
--   source's; a method takes its object first and returns the object after it. The readonly types are
--   in children called Readonly. The clients take the operations of a storage and its laws as
--   parameters. Serde is the interface of the JSON encoding, and Errors has packages/std/src/errors.
-- - Sections has packages/std/src/sections.rs and packages/vm/src/sections.rs, where the VM's encoder
--   is `vm_encode_sections`.
-- - Math has packages/std/src/math: Uint128, Uint64, the calls of Uint256 that they make, Isqrt and
--   the arithmetic of Decimal. Words is the arithmetic of Rust's unsigned integers.
-- - Vm has packages/vm/src: Errors, Region (memory.rs), Gas and Environment (environment.rs,
--   backend.rs), Imports (imports.rs, with Iterators, Addresses and Signatures) and Crypto, the codes
--   of the errors of packages/crypto/src/errors.rs. The state is `Environment`, which is `ContextData`
--   with the gas prices; an import is an `Action`, a function from the environment to a result and the environment
--   after it, also where it fails. `Host` is the interface of the Wasm instance, the storage and the
--   querier.
--   Checksum, Modules and Cache are checksum.rs, modules/ and cache.rs: a method takes the state of the
--   cache and returns its result and the state after it, also where it fails. The compiler, the files
--   and the map that drops the least recently used entry are interfaces with laws.
--   Compatibility, StaticAnalysis, Features and Limited are the files of these names: the checks of
--   `check_wasm`, with the messages of their errors, and the display of a set in a limited text. Text
--   has the sets of strings. A module has the sections that the checks read, and the decoder of
--   parity_wasm is a function that is given; `hide_elements` and `show_elements` are the two loops of
--   `collection_to_string_limited`.
--   Testing is testing/storage.rs, the storage for tests with its iterators, its child Api the
--   addresses of testing/mock.rs, and External the contract's side of an iterator in
--   packages/std/src/imports.rs.
-- - Mock has the addresses of packages/std/src/mock.rs; `to_canonical` and `to_human` are what its
--   API and the one of testing/mock.rs share. Utf8 says which bytes are a string of Rust.
-- - Queue has contracts/queue/src: the calls on the items of an iterator (Items), the messages, the
--   migration and the queries. Fifo is the queue that the contract stands for. A call takes the
--   storage and returns the response's data and the storage after it; the encoding of an item is
--   given. An `i32` is a number with a sign (Int32), and its sums panic on overflow.
-- - Staking has contracts/staking/src: the stored types and their accessors, the helpers (Accounts),
--   the handlers `transfer`, `bond` and `unbond` (Handlers) and `claim`, `reinvest` and
--   `_bond_all_tokens` (Rewards), under names with `do_` in front, and the entry points (Contract). A
--   handler takes the storage and returns the response and the storage after it; what the chain
--   answers is `Chain`. Its other children prove what the handlers do to the balances, the claims and
--   the supply.
-- - Tests has concrete storages, codecs, words, hosts, disks and chains, and applies the theorems to
--   them.
--
-- Bounds and fuel. Numbers are native and unbounded; a fixed width is written out, as a remainder
-- or a test. `usize` has 64 bits, and no length comes near it. The counters of the cache wrap
-- around as in a release build. The decoder of sections runs on the length of its data and one,
-- since each round takes four bytes at least; the square root runs on its first value and one,
-- since each round lowers the value; `all` of the mock storage runs on fuel for more rounds than there
-- are records. Running out would be a panic.
--
-- Not modelled. JSON and base64; texts of messages that come from other packages; locks,
-- pointers and threads of the environment; the compiler and the decoder of Wasm code; the creation of
-- instances; the verification of signatures itself, which the imports take as functions; 512-bit integers, the 256-bit decimals, coins, timestamps; the
-- message and query types; the import for debugging; the queries of the staking
-- contract, the other example contracts, the profiler, the schema and the macros.

pub mod Base
pub mod Bytes
pub mod BTreeMap
pub mod Storage
pub mod Memory
pub mod LengthPrefixed
pub mod Namespace
pub mod Prefixed
pub mod Errors
pub mod Serde
pub mod TypeHelpers
pub mod Bucket
pub mod Singleton
pub mod Sequence
pub mod Math
pub mod Sections
pub mod Vm
pub mod Utf8
pub mod Mock
pub mod External
pub mod Queue
pub mod Staking
pub mod Tests

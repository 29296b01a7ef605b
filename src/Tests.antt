-- ===== src/Tests.antt =====
-- Concrete storages, codecs, words and hosts that keep the interfaces, and the theorems of this
-- library applied to them.
pub mod Fixtures
pub mod Namespaces
pub mod Values
pub mod Numbers
pub mod Machine
pub mod Accounts
pub mod Contracts
pub mod Disks
pub mod Caches
pub mod Queues
pub mod Checks
pub mod Iterators
pub mod Addresses

-- ===== src/Vm.antt =====
-- packages/vm: the virtual machine that runs contracts, as far as it accounts for gas, checks
-- memory regions, serves the imports of a contract and caches compiled modules.
pub mod Errors
pub mod Region
pub mod Gas
pub mod Environment
pub mod Crypto
pub mod Imports
pub mod Text
pub mod Limited
pub mod StaticAnalysis
pub mod Features
pub mod Compatibility
pub mod Testing
pub mod Checksum
pub mod Modules
pub mod Cache

-- ===== src/Core.antt =====
-- crates/sandbx-core: the parts of the sandbox that are functions of their input.
pub mod Digest
pub mod Decimal
pub mod Policy
pub mod HelperArgs
pub mod Degradation
pub mod FilePath
pub mod Host
pub mod Guard
pub mod Check
pub mod Access
pub mod Walk
mod Tests

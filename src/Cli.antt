-- ===== src/Cli.antt =====
-- crates/sandbx-cli/src: how a run of the agent is consented to, and what it shows of a call.
pub mod Spelling
pub mod Gate
pub mod Consent
pub mod WrapUp
pub mod AgentRun
mod Tests

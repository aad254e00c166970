-- ===== src/Abi.antt =====
-- The native boundary of the plugin (cmd/codex-pat).
pub mod Memory
pub mod HostCall
pub mod Process

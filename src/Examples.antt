-- ===== src/Examples.antt =====
-- The theorems at concrete inputs, over a small instance of what the core takes from other crates.
pub mod Sample
pub mod Stored
pub mod States
pub mod Manager
pub mod Sequences
pub mod Replicated
pub mod Modbus
pub mod Acls
pub mod Reactions
pub mod Expiring
pub mod Rules
pub mod Parsed

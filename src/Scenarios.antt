-- ===== src/Scenarios.antt =====
-- Concrete rules, packets and runs: tests of the definitions, and each theorem at an input that
-- exercises the code.
pub mod Lookups
pub mod Orders
pub mod Engines
pub mod Converting
pub mod Enforcing
pub mod Serving
pub mod Packets
pub mod Resolved
pub mod Messages
pub mod Refusals
pub mod Queue
pub mod Prompting
pub mod Configs
pub mod Counting

-- ===== src/Tests.antt =====
-- Runs of the modelled functions on concrete inputs.
pub mod Parsing
pub mod State
pub mod Programs
pub mod Services
pub mod Exports

-- ===== src/Config.antt =====
-- src/config.c: one project, built from the events of the SIML parser.
pub mod State
pub mod Path
pub mod Template
pub mod Fields
pub mod Entries
pub mod Finish
pub mod Events
pub mod Invariant
pub mod Lines

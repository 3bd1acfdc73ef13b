-- ===== src/Tests.antt =====
-- Runs at concrete inputs: tests of the definitions, and an instance of each theorem that has
-- conditions.
mod Records
mod Config
mod Responses
mod Main
mod Files
mod Stamping
mod Setup
mod Unpacking

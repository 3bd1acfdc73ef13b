-- ===== src/Main.antt =====
-- src/main.c: options, the scheduling decision, and the order of the work.
pub mod Words
pub mod Options
pub mod Due
pub mod Duration
pub mod Run
pub mod Start

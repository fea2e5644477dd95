-- ===== src/Exec.antt =====
-- suite/exec.c: parts of the executor of scenarios that stand by themselves: the templates of
-- messages, the texts of timeline events, the numbers of a bench, and the
-- words that reach a shell.
pub mod Templates
pub mod Json
pub mod Bench
pub mod Words
mod Tests

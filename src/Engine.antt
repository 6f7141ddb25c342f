-- ===== src/Engine.antt =====
-- apps/web/src/upload/engine.ts: the browser's uploads. `Scheduler` is the loop that starts the parts of
-- one file and what may happen to a running part, `Attempts` the rounds of one part, `Slices` the bytes
-- that a part sends, and `Transfers` the list of files; `Coverage` and `Effort` are about the loop and
-- about one part.
pub mod Scheduler
pub mod Attempts
pub mod Slices
pub mod Coverage
pub mod Filling
pub mod Effort
pub mod Transfers

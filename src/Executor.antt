-- ===== src/Executor.antt =====
-- internal/executor: managed processes and groups of them.
pub mod Process
pub mod Group
pub mod LineLogger
mod Tests

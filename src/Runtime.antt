-- ===== src/Runtime.antt =====
-- backend/qemu/internal/runtime and qmpclient: the lifecycle of a running machine.
pub mod State
pub mod Closer
pub mod Core
pub mod Migration
mod Tests

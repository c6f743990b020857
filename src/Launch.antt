-- ===== src/Launch.antt =====
-- backend/qemu/internal/launch: suspend requests, resuming, CIDs and the launch lock.
pub mod Suspend
pub mod Resume
pub mod Save
pub mod Cid
pub mod RuntimeLock
mod Tests

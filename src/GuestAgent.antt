-- ===== src/GuestAgent.antt =====
-- backend/qemu/internal/qga: the client of the guest agent.
pub mod Sync
pub mod Exec
mod Tests

-- ===== src/Vmm.antt =====
-- backend/qemu/internal/vmm: how a launch starts a machine, and the handle of a machine that runs.
pub mod Startup
pub mod Handle
pub mod Quit
pub mod Qemu
mod Tests
mod QemuTests

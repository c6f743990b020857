-- ===== src/Balloon.antt =====
-- backend/qemu/internal/balloon and internal/manifest/balloon.go: the balloon memory controller.
pub mod Config
pub mod Defaults
pub mod Evaluate
pub mod Qom
pub mod Controller
mod Tests

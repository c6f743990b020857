-- ===== src/Hotplug.antt =====
-- backend/qemu/internal/hotplug: attaching devices to a running VM and detaching them.
pub mod Device
pub mod Host
pub mod Adapter
pub mod Registry
pub mod Runner
mod Tests

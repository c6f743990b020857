-- ===== src/Wire.antt =====
-- backend/qemu/internal/qmpwire: the line-delimited JSON connections to QEMU and its guest agent.
pub mod Frame
pub mod Session
pub mod Dial
mod Tests

-- ===== src/Control.antt =====
-- internal/control: the requests that a machine takes on its control socket.
pub mod Router
pub mod Server
mod Tests

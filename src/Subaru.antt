-- ===== src/Subaru.antt =====
-- The port of Subaru: its controller and its messages.
pub mod Messages
pub mod Preglobal
pub mod Controller
pub mod Bounds
pub mod Drive
pub mod Presses
mod Tests

-- ===== src/Common.antt =====
-- The other helpers of selfdrive/car/__init__.py: the workaround for steering faults, button events,
-- bus numbers and signal rates.
pub mod FaultAvoidance
pub mod Buttons
pub mod Buses
pub mod Rates
mod Tests

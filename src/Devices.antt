-- ===== src/Devices.antt =====
-- crates/trace-devices: the drivers, the registry that keeps them alive, and the backoff.
pub mod Retry
pub mod Driver
pub mod Registry
pub mod Manual
pub mod Simulator
pub mod Line

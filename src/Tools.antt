-- ===== src/Tools.antt =====
-- tools: the dry run of a route.
pub mod Simulation

-- ===== src/Edge.antt =====
-- apps/trace-edge: the public page of a unit.
pub mod Page

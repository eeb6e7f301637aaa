-- ===== src/Station.antt =====
-- apps/trace-station: the station's durable queue.
pub mod Spool

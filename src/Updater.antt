-- ===== src/Updater.antt =====
-- crates/trace-updater: the parts of the updater that are modelled.
pub mod Manifest
pub mod Apply

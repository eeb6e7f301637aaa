-- ===== src/Core.antt =====
-- crates/trace-core: the domain model, the route and its engine, the hash chain. One child per file
-- of crates/trace-core/src.
pub mod Error
pub mod Unit
pub mod Route
pub mod Dcp
pub mod Config
pub mod Engine
pub mod Chain

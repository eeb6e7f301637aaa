-- ===== src/License.antt =====
-- crates/trace-license: what a customer has paid for (Entitlement), the guard against a clock that is
-- wound back (Clockguard), and what the two establish together (Expiry).
pub mod Clockguard
pub mod Entitlement
pub mod Expiry

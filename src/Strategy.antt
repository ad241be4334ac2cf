-- ===== src/Strategy.antt =====
-- crates/trolly-strategy: normalized events, strategies, and the runtime that connects them to an
-- egress.
pub mod Event
pub mod Egress
pub mod Runtime
pub mod Delivery

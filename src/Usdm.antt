-- ===== src/Usdm.antt =====
-- crates/binance-usdm-exec: execution and account bookkeeping over user-data streams.
pub mod Types
pub mod Account
pub mod Handler
pub mod Parse
pub mod Ingress
pub mod Legs
pub mod Consistency
pub mod Forwarding
pub mod Margins
pub mod Orders
pub mod Fanout
pub mod Order
pub mod Client
pub mod Egress
pub mod Endpoints
pub mod ListenKey

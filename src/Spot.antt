-- ===== src/Spot.antt =====
-- crates/binance-spot-exec: the user-data stream of the spot market.
pub mod Events
pub mod Parse
pub mod Decimal
pub mod Account
pub mod Handler
pub mod Delivery
pub mod Auth
pub mod Order
pub mod Client
pub mod Egress
pub mod Endpoints
pub mod Transport

-- ===== src/Examples.antt =====
-- The theorems at concrete inputs.
mod Data
mod Usdm
mod Orders
mod Monitor
mod Runtime
mod Shards
mod Spot
mod Gym
mod Tui
mod SpotOrders

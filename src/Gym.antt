-- ===== src/Gym.antt =====
-- crates/trolly-gym: the stream-fed training environment.
pub mod Ring
pub mod Action
pub mod Observation
pub mod Replay
pub mod Env
pub mod Train
pub mod Games

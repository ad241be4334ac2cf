-- ===== src/Gym/Train.antt =====
-- crates/trolly-gym/src/train and ppo: rollouts, advantages, learning rates and the driver.
pub mod Numbers
pub mod Rollout
pub mod Gae
pub mod Wolf
pub mod Driver

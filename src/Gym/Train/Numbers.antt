-- ===== src/Gym/Train/Numbers.antt =====
-- The two floating-point types of the training code with the casts between them, and
-- `Iterator::sum` of `f64`.
use trolly.Prelude.{List, Arithmetic}

pub record Numbers : Type 1 where
  pub f32 : Arithmetic
  pub f64 : Arithmetic
  pub widen : f32.Float → f64.Float
  pub narrow : f64.Float → f32.Float
  pub sum : List f64.Float → f64.Float

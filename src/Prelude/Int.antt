-- ===== src/Prelude/Int.antt =====
-- `i64` and `i128` as integers over the native numbers; a width is stated where it matters.
use Prim.Native.Nat.{ℕ}
use mathlib.Core.Path.{◌≡◌}
use mathlib.Core.Logic.{◌↔◌}
use mathlib.Core.Bool.{Bool, false}
use native.Mathlib.Omega.{arith}
use trolly.Prelude.Tests.{eqb, Eq}

-- `negsuc n` is -(n + 1).
pub data ℤ : Type 0 where
  pos : ℕ → ℤ
  negsuc : ℕ → ℤ

unfoldable pub int_eqb : ℤ → ℤ → Bool
int_eqb (pos a) (pos b) = eqb a b
int_eqb (pos a) (negsuc b) = false
int_eqb (negsuc a) (pos b) = false
int_eqb (negsuc a) (negsuc b) = eqb a b

pub int_eqb_iff : (a b : ℤ) → (int_eqb a b ≡ Bool.true) ↔ (a ≡ b)
unfolding int_eqb
int_eqb_iff (pos a) (pos b) = ground arith
int_eqb_iff (pos a) (negsuc b) = ground arith
int_eqb_iff (negsuc a) (pos b) = ground arith
int_eqb_iff (negsuc a) (negsuc b) = ground arith

instance abbrev pub int_Eq : Eq ℤ
int_Eq = record { beq = int_eqb; beq_iff = int_eqb_iff }

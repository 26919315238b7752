-- ===== src/Types/Floating.antt =====
-- The floating-point numbers of the deviation: any type with the operations that the code uses.
use irqbalance.Prelude.{ℕ, Bool}

pub record Floating (F : Type 0) : Type 0 where
  pub from_ℕ : ℕ → F
  pub sqrt : F → F
  pub add : F → F → F
  pub sub : F → F → F
  pub leq : F → F → Bool

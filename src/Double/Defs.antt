-- ===== src/Double/Defs.antt =====
-- The operations on a `double`. None has a law: a theorem that needs one states it.
use any_node.Base.{ℕ, Bool}
use any_node.Base.Int.{ℤ, pos}

pub record Double (D : Type 0) : Type 0 where
  pub of_long : ℤ → D  -- conversion from an integer type
  pub to_long : D → ℤ  -- static_cast<long int>
  pub add : D → D → D
  pub sub : D → D → D
  pub mul : D → D → D
  pub div : D → D → D
  pub sqrt : D → D
  pub lt : D → D → Bool
  pub le : D → D → Bool
  pub eq : D → D → Bool
  pub is_inf : D → Bool
  pub is_nan : D → Bool
  pub infinity : D
  pub quiet_nan : D

-- The literals of the source are whole numbers: 0.0, 1.0, 10.0.
abbrev pub literal : {D : Type 0} ⦃d : Double D⦄ → ℕ → D
literal ⦃d⦄ n = d.of_long (pos n)

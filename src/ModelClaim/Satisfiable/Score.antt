-- ===== src/ModelClaim/Satisfiable/Score.antt =====
-- The float64 arithmetic of the nearest-miss score. Its rounding is not modelled: the operations
-- are a parameter, and the score decides only which device a diagnostic names.
use llmfit_dra.Prelude.{ℕ, Bool}
use llmfit_dra.Prelude.Int64.{ℤ}

pub record Float : Type 1 where
  pub F : Type 0
  pub of_int : ℤ → F
  pub of_uint : ℕ → F
  pub add : F → F → F
  pub mul : F → F → F
  pub div : F → F → F
  pub gt : F → F → Bool
  -- The literals 0.0, 1.0, 0.1 and -1.0.
  pub zero_score : F
  pub one_score : F
  pub tenth : F
  pub minus_one : F

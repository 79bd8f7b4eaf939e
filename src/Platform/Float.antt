-- ===== src/Platform/Float.antt =====
-- `f64`, as far as the program uses it. Nothing is assumed of the arithmetic but where a theorem
-- says so; in particular `lt` may be false both ways, as it is at NaN.
use researcher_agent_kube_en.Base.{ℕ, Bool, List, [], ◌∷◌, Option, Text}

pub record Float : Type 1 where
  pub F64 : Type 0
  pub add : F64 → F64 → F64
  pub mul : F64 → F64 → F64
  pub div : F64 → F64 → F64
  pub max : F64 → F64 → F64
  pub sqrt : F64 → F64
  pub lt : F64 → F64 → Bool
  pub eq : F64 → F64 → Bool
  -- `as f64` on a `u32`.
  pub of_u32 : ℕ → F64
  -- The literals `0.0`, `1.0`, `2.0` and `1e-9`, and the number with which `sum` starts.
  pub zero : F64
  pub one : F64
  pub two : F64
  pub nano : F64
  pub sum_start : F64
  -- `Display` and `parse`.
  pub print : F64 → Text
  pub parse : Text → Option F64

module _ (fl : Float) where
  open fl use {F64, add}

  -- `iter().sum::<f64>()`
  unfoldable pub sum_from : F64 → List F64 → F64
  sum_from acc [] = acc
  sum_from acc (x ∷ xs) = sum_from (add acc x) xs

  unfoldable pub sum : List F64 → F64
  unfolding sum_from
  sum xs = sum_from fl.sum_start xs

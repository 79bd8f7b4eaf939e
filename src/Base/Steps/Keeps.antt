-- ===== src/Base/Steps/Keeps.antt =====
-- What a step keeps, whether it returns or fails: one rule for each way to build a step.
use researcher_agent_kube_en.Base.Results.{Result, ok, err}
use researcher_agent_kube_en.Base.Steps.{Step, ◌>>=◌, pure}

pub record Keeps {W E A : Type 0} (P : W → Type 0) (m : Step W E A) : Type 0 where
  pub at : (w : W) → P w → P (m w).1

module _ {W E A : Type 0} {P : W → Type 0} where
  pub Keeps-pure : (r : Result A E) → Keeps P (pure {W = W} r)
  unfolding pure
  Keeps-pure r = record { at = λ w h. h }

  module _ {B : Type 0} where
    Keeps-rest :
        (r : Result A E) (f : A → Step W E B) (w : W)
        → ((a : A) → Keeps P (f a))
        → P w
        → P ((elim r as (λ _. Result B E × W) [ ok a ↦ f a w | err e ↦ (err e, w) ]).1)
    Keeps-rest (ok a) f w kf h = (kf a).at w h
    Keeps-rest (err e) f w kf h = h

    pub Keeps-bind :
        (m : Step W E A) (f : A → Step W E B)
        → Keeps P m
        → ((a : A) → Keeps P (f a))
        → Keeps P (m >>= f)
    unfolding ◌>>=◌
    Keeps-bind m f km kf = record { at = λ w h. Keeps-rest (m w).0 f (m w).1 kf (km.at w h) }

pub ruleset keeps_rules = (Keeps-pure, Keeps-bind)

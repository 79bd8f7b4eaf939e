-- ===== src/Base/Steps.antt =====
-- A step that may fail and changes a state: `?` on a call with effects is the bind of a `do` block.
pub mod Keeps
use researcher_agent_kube_en.Base.Results.{Result, ok, err}

-- `W` is the state, which an error leaves as it is at that point.
abbrev pub Step : Type 0 → Type 0 → Type 0 → Type 0
Step W E A = W → Result A E × W

infixl 5 ◌>>=◌ ◌>>◌
unfoldable pub ◌>>=◌ : {W E A B : Type 0} → Step W E A → (A → Step W E B) → Step W E B
◌>>=◌ m f w = let (r, w') = m w in elim r [ ok a ↦ f a w' | err e ↦ (err e, w') ]

abbrev pub ◌>>◌ : {W E A B : Type 0} → Step W E A → Step W E B → Step W E B
m >> k = m >>= λ _. k

unfoldable pub pure : {W E A : Type 0} → Result A E → Step W E A
pure r w = (r, w)

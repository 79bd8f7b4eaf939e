-- ===== src/Base/Maps.antt =====
-- `HashMap<String, V>` as an association list. The source leaves the order of iteration open: the
-- order of the entries here is one of the possible ones, and no theorem rests on it.
pub mod Laws
use mathlib.Core.Path.{◌≡◌}
use mathlib.Core.Bool.{Bool}
use mathlib.Core.Option.{Option, none, some}
use mathlib.Core.List.{List, [], ◌∷◌}
use researcher_agent_kube_en.Base.Tests.{if◌then◌else◌, is_some}
use researcher_agent_kube_en.Base.Strings.{Text, text_eq}

abbrev pub Map {ℓ} : Type ℓ → Type ℓ
Map V = List (Text × V)

module _ {ℓ} {V : Type ℓ} where
  -- `get`
  unfoldable pub lookup : Text → Map V → Option V
  lookup k [] = none
  lookup k ((j, v) ∷ m) = if text_eq j k then some v else lookup k m

  -- `contains_key`
  unfoldable pub contains_key : Text → Map V → Bool
  unfolding lookup
  contains_key k m = is_some (lookup k m)

  -- `insert`
  unfoldable pub insert : Text → V → Map V → Map V
  insert k v [] = (k, v) ∷ []
  insert k v ((j, w) ∷ m) = if text_eq j k then (j, v) ∷ m else (j, w) ∷ insert k v m

  -- A write through `get_mut`; nothing happens at a key that is missing.
  unfoldable pub modify : Text → (V → V) → Map V → Map V
  modify k f [] = []
  modify k f ((j, w) ∷ m) = if text_eq j k then (j, f w) ∷ m else (j, w) ∷ modify k f m

  -- `values`
  abbrev pub values : Map V → List V
  values [] = []
  values ((j, v) ∷ m) = v ∷ values m

  -- Every entry of the map meets a predicate on the key and the value.
  abbrev pub All {κ} : (Text → V → Type κ) → Map V → Type κ
  All P [] = Unit
  All P ((j, v) ∷ m) = P j v × All P m

  -- No key twice: what a `HashMap` guarantees.
  abbrev pub Distinct : Map V → Type ℓ
  Distinct [] = Unit
  Distinct ((j, v) ∷ m) = (lookup j m ≡ none) × Distinct m

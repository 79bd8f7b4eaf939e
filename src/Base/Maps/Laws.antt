-- ===== src/Base/Maps/Laws.antt =====
-- The laws of the map: every lookup after an update, in `if` form; what an update does to a
-- predicate on all entries, to the number of entries and to the distinctness of the keys.
use mathlib.Core.Path.{◌≡◌, refl}
use mathlib.Core.Bool.{false}
use mathlib.Core.Option
use mathlib.Core.Option.{Option, none, some}
use mathlib.Core.List.{[], ◌∷◌}
use Prim.Native.Nat.{◌+◌}
use native.Mathlib.Omega.{arith}
use researcher_agent_kube_en.Base.Tests.{if◌then◌else◌, is_some}
use researcher_agent_kube_en.Base.Lists.{length}
use researcher_agent_kube_en.Base.Strings.{Text, text_eq, text_eq_iff}
use researcher_agent_kube_en.Base.Maps.{Map, lookup, contains_key, insert, modify, All, Distinct}

module _ {ℓ} {V : Type ℓ} where
  pub lookup-insert :
      (k j : Text) (v : V) (m : Map V)
      → lookup j (insert k v m) ≡ (if text_eq k j then some v else lookup j m)
  unfolding lookup insert
  lookup-insert k j v [] = refl
  lookup-insert k j v ((i, w) ∷ m) =
      ground (arith, text_eq_iff k j, text_eq_iff i k, text_eq_iff i j, lookup-insert k j v m)

  pub lookup-modify :
      (k j : Text) (f : V → V) (m : Map V)
      → lookup j (modify k f m) ≡ (if text_eq k j then Option.map f (lookup j m) else lookup j m)
  unfolding lookup modify
  lookup-modify k j f [] = ground arith
  lookup-modify k j f ((i, w) ∷ m) =
      ground (arith, text_eq_iff k j, text_eq_iff i k, text_eq_iff i j, lookup-modify k j f m)

  pub All-lookup {κ} :
      (P : Text → V → Type κ) (k : Text) (v : V) (m : Map V) → All P m → lookup k m ≡ some v → P k v
  unfolding lookup
  All-lookup P k v [] h e = cc
  All-lookup P k v ((j, w) ∷ m) h e = ground (arith, text_eq_iff j k, All-lookup P k v m)

  pub All-insert {κ} :
      (P : Text → V → Type κ) (k : Text) (v : V) (m : Map V)
      → P k v
      → All P m
      → All P (insert k v m)
  unfolding insert
  All-insert P k v [] p h = (p, tt)
  All-insert P k v ((j, w) ∷ m) p h = ground (arith, text_eq_iff j k, All-insert P k v m p h.1)

  pub All-modify {κ} :
      (P : Text → V → Type κ) (k : Text) (f : V → V) (m : Map V)
      → ((v : V) → P k v → P k (f v))
      → All P m
      → All P (modify k f m)
  unfolding modify
  All-modify P k f [] keep h = tt
  All-modify P k f ((j, w) ∷ m) keep h =
      ground (arith, text_eq_iff j k, keep w, All-modify P k f m keep h.1)

  pub Distinct-insert : (k : Text) (v : V) (m : Map V) → Distinct m → Distinct (insert k v m)
  unfolding insert lookup
  Distinct-insert k v [] d = (refl, tt)
  Distinct-insert k v ((j, w) ∷ m) d =
      ground
        (arith, text_eq_iff k j, text_eq_iff j k, lookup-insert k j v m, Distinct-insert k v m d.1)

  pub Distinct-modify : (k : Text) (f : V → V) (m : Map V) → Distinct m → Distinct (modify k f m)
  unfolding modify lookup
  Distinct-modify k f [] d = tt
  Distinct-modify k f ((j, w) ∷ m) d =
      ground
        (arith, text_eq_iff k j, text_eq_iff j k, lookup-modify k j f m, Distinct-modify k f m d.1)

  -- A new key adds one entry.
  pub length-insert_new :
      (k : Text) (v : V) (m : Map V) → lookup k m ≡ none → length (insert k v m) ≡ length m + 1
  unfolding lookup insert
  length-insert_new k v [] e = omega arith
  length-insert_new k v ((j, w) ∷ m) e = ground (arith, length-insert_new k v m)

  pub length-insert :
      (k : Text) (v : V) (m : Map V)
      → length (insert k v m) ≡ length m + (if is_some (lookup k m) then 0 else 1)
  unfolding lookup insert
  length-insert k v [] = refl
  length-insert k v ((j, w) ∷ m) = ground (arith, length-insert k v m)

  pub length-modify : (k : Text) (f : V → V) (m : Map V) → length (modify k f m) ≡ length m
  unfolding modify
  length-modify k f [] = refl
  length-modify k f ((j, w) ∷ m) = ground (arith, length-modify k f m)

  pub contains_key-lookup : (k : Text) (m : Map V) → contains_key k m ≡ false → lookup k m ≡ none
  unfolding contains_key
  contains_key-lookup k m e = ground arith

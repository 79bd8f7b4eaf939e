-- ===== src/Base/Strings/Laws.antt =====
-- Facts on `starts_with` and `contains`, and on texts that a separator joins.
use Prim.Native.Nat.{ℕ}
use mathlib.Core.Path.{◌≡◌, refl, ap}
use mathlib.Core.Logic.{◌≢◌, ◌↔◌, inl, inr}
use mathlib.Core.Bool.{true, false}
use mathlib.Core.List.{[], ◌∷◌, ◌++◌}
use native.Mathlib.Omega.{arith}
use researcher_agent_kube_en.Base.Tests.{Bool-cases}
use researcher_agent_kube_en.Base.Strings.{Text, starts_with, contains}

-- The character stands nowhere in the text.
abbrev pub Lacks : ℕ → Text → Type 0
Lacks c [] = Unit
Lacks c (d ∷ s) = (d ≢ c) × Lacks c s

-- A text in front of its first separator is determined by the whole.
pub split_unique :
    (c : ℕ) (a b r s : Text)
    → Lacks c a
    → Lacks c b
    → (a ++ c ∷ r) ≡ (b ++ c ∷ s)
    → (a ≡ b) × (r ≡ s)
split_unique c [] [] r s la lb e = (refl, ground arith)
split_unique c [] (y ∷ b) r s la lb e = absurd (lb.0 (ground arith))
split_unique c (x ∷ a) [] r s la lb e = absurd (la.0 (ground arith))
split_unique c (x ∷ a) (y ∷ b) r s la lb e = ground (arith, split_unique c a b r s la.1 lb.1)

pub starts_with-append : (t r : Text) → starts_with (t ++ r) t ≡ true
unfolding starts_with
starts_with-append [] r = refl
starts_with-append (c ∷ t) r = ground (arith, starts_with-append t r)

pub contains-here : (t r : Text) → contains (t ++ r) t ≡ true
unfolding contains starts_with
contains-here [] [] = refl
contains-here [] (c ∷ r) = refl
contains-here (c ∷ t) r = ground (arith, starts_with-append t r)

pub contains-append : (a s t : Text) → contains s t ≡ true → contains (a ++ s) t ≡ true
unfolding contains
contains-append [] s t h = h
contains-append (c ∷ a) s t h = ground (arith, contains-append a s t h)

-- A text that stands between two others is found.
pub contains-middle : (a t r : Text) → contains (a ++ (t ++ r)) t ≡ true
contains-middle a t r = contains-append a (t ++ r) t (contains-here t r)

-- What is found can be cut out: `contains` never answers `true` wrongly.
pub starts_with-split : (s t : Text) → starts_with s t ≡ true → (r : Text) × (s ≡ t ++ r)
unfolding starts_with
starts_with-split s [] h = (s, refl)
starts_with-split [] (d ∷ t) h = cc
starts_with-split (c ∷ s) (d ∷ t) h =
    let (r, e) = starts_with-split s t (ground arith) in (r, ground arith)

pub contains-split :
    (s t : Text) → contains s t ≡ true → (a : Text) × (r : Text) × (s ≡ a ++ (t ++ r))
unfolding contains
contains-split [] t h = let (r, e) = starts_with-split [] t h in ([], r, e)
contains-split (c ∷ s) t h = elim (Bool-cases (starts_with (c ∷ s) t)) [
  | inl here ↦ let (r, e) = starts_with-split (c ∷ s) t here in ([], r, e)
  | inr later ↦ let (a, r, e) = contains-split s t (ground arith) in (c ∷ a, r, ap (◌∷◌ c) e)
]

-- The text stands somewhere in the other.
abbrev pub IsIn : Text → Text → Type 0
IsIn t s = (before : Text) × (after : Text) × (s ≡ before ++ (t ++ after))

pub contains_iff : (s t : Text) → (contains s t ≡ true) ↔ IsIn t s
contains_iff s t = (contains-split s t, λ (a, r, e). rw e (contains-middle a t r))

pub contains-false_iff : (s t : Text) → (contains s t ≡ false) ↔ (¬ IsIn t s)
contains-false_iff s t = (
  λ absent found. let e = (contains_iff s t).1 found in cc,
  λ none. elim (Bool-cases (contains s t)) [
    | inl found ↦ absurd (none ((contains_iff s t).0 found))
    | inr absent ↦ absent
  ],
)

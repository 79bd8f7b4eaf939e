-- ===== src/Base/Strings/Split.antt =====
-- `splitn` on a text that is made of parts with the separator in between.
use Prim.Native.Nat.{ℕ, suc}
use mathlib.Core.Path.{◌≡◌, ap, ◌∙◌}
use mathlib.Core.List.{[], ◌∷◌, ◌++◌, reverse, reverse-cons, append_assoc, append-nil}
use native.Mathlib.Omega.{arith}
use researcher_agent_kube_en.Base.Tests.{==_iff}
use researcher_agent_kube_en.Base.Strings.{Text, splitn, splitn_from}
use researcher_agent_kube_en.Base.Strings.Laws.{Lacks}

reverse_part : (d : ℕ) (part a : Text) → (reverse (d ∷ part) ++ a) ≡ (reverse part ++ (d ∷ a))
reverse_part d part a =
    ap (λ s. s ++ a) (reverse-cons d part) ∙ append_assoc (reverse part) (d ∷ []) a

-- A part that lacks the separator is cut off at it.
splitn_from-cut :
    (n c : ℕ) (part a r : Text)
    → Lacks c a
    → splitn_from (suc n) c part (a ++ c ∷ r) ≡ (reverse part ++ a) ∷ splitn_from n c [] r
unfolding splitn_from
splitn_from-cut n c part [] r h = ground (arith, ==_iff c c, append-nil (reverse part))
splitn_from-cut n c part (d ∷ a) r h =
    ground (arith, ==_iff d c, splitn_from-cut n c (d ∷ part) a r h.1, reverse_part d part a)

-- Four parts, of which the last is all that is left.
pub splitn-four :
    (c : ℕ) (a b p r : Text)
    → Lacks c a
    → Lacks c b
    → Lacks c p
    → splitn 4 c (a ++ c ∷ (b ++ c ∷ (p ++ c ∷ r))) ≡ a ∷ b ∷ p ∷ r ∷ []
unfolding splitn splitn_from
splitn-four c a b p r ha hb hp =
    splitn_from-cut 2 c [] a (b ++ c ∷ (p ++ c ∷ r)) ha
    ∙ ap (◌∷◌ a) (splitn_from-cut 1 c [] b (p ++ c ∷ r) hb)
    ∙ ap (λ s. a ∷ b ∷ s) (splitn_from-cut 0 c [] p r hp)

-- ===== src/FactGraph/Queries.antt =====
-- src/fact_graph.rs, `query_by_tag`.
use mathlib.Core.List.{mem-cons, mem-cons_self, mem-cons_of_mem, not-mem-nil}
use mathlib.Core.Logic.Or
use mathlib.Core.Bool.{Bool-set}
use researcher_agent_kube_en.Base.{
  ◌≡◌, refl, sym, true, List, [], ◌∷◌, Text, text_eq, text_eq_iff, ◌↔◌, Mem, any, mem-retain,
  Bool-cases, inl, inr,
}
use researcher_agent_kube_en.Base.Maps.{values}
use researcher_agent_kube_en.FactGraph.{FactNode, FactGraph, query_by_tag}

-- `any` with the test of equality is membership.
any-eq_mem : (tag : Text) (ts : List Text) → (any (λ t. text_eq t tag) ts ≡ true) ↔ Mem tag ts
unfolding any
any-eq_mem tag [] = (λ e. cc, λ m. absurd (not-mem-nil m))
any-eq_mem tag (t ∷ ts) = elim (Bool-cases (text_eq t tag)) [
  | inl hit ↦ rw hit (λ _. rw ((text_eq_iff t tag).0 hit) mem-cons_self, λ _. refl)
  | inr miss ↦ rw miss (
    λ e. mem-cons_of_mem t ((any-eq_mem tag ts).0 e),
    λ m.
        Or.elim (Bool-set _ _) (mem-cons.0 m) (λ e. absurd (cc ((text_eq_iff t tag).1 (sym e))))
          ((any-eq_mem tag ts).1),
  )
]

-- A query by tag returns exactly the facts of the graph that carry the tag.
pub query_by_tag-mem :
    (g : FactGraph) (tag : Text) (n : FactNode)
    → Mem n (query_by_tag g tag) ↔ (Mem n (values g.nodes) × Mem tag n.tags)
unfolding query_by_tag
query_by_tag-mem g tag n =
    let kept = mem-retain (λ (n : FactNode). any (λ t. text_eq t tag) n.tags) (values g.nodes) n in
    (
      λ m. let (found, tagged) = kept.0 m in (found, (any-eq_mem tag n.tags).0 tagged),
      λ (found, tagged). kept.1 (found, (any-eq_mem tag n.tags).1 tagged),
    )

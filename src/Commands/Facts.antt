-- ===== src/Commands/Facts.antt =====
-- src/main.rs, the subcommand `query-facts`.
use researcher_agent_kube_en.Base.{
  ℕ, ◌==◌, List, [], ◌∷◌, ◌++◌, Option, ok, Text, lit, text_eq, any,
}
use researcher_agent_kube_en.Base.Steps.{◌>>=◌, pure}
use researcher_agent_kube_en.Base.Decimal.{decimal}
use researcher_agent_kube_en.Base.Maps.{values}
use researcher_agent_kube_en.Config.{Cli}
use researcher_agent_kube_en.FactGraph.{FactNode, load_fact_graph}
use researcher_agent_kube_en.Api.History.{retain_if}
use researcher_agent_kube_en.Commands.{Surroundings, fact_graph}
use researcher_agent_kube_en.Commands.Console.{M, lift, fetch, or_local, print_table, pad, base_url}

unfoldable pub filter_facts :
    (tag backend : Option Text) (epoch : Option ℕ) → List FactNode → List FactNode
unfolding retain_if
filter_facts tag backend epoch facts =
    retain_if epoch (λ ep f. f.epoch == ep)
      (retain_if backend (λ b f. text_eq f.backend b)
        (retain_if tag (λ t f. any (λ tg. text_eq tg t) f.tags) facts))

abbrev pub fact_header : List Text
unfolding pad
fact_header =
    pad 36 (lit "PROOFS (HASH)")
    ∷ pad 10 (lit "BACKEND")
    ∷ pad 5 (lit "EPOCH")
    ∷ pad 20 (lit "VERIFIED AT")
    ∷ lit "SUMMARY"
    ∷ []

module _ {F : Type 0} (env : Surroundings F) where
  open env use {fs}

  unfoldable pub fact_cells : FactNode → List Text
  unfolding pad
  fact_cells f =
      pad 36 f.proof_hash
      ∷ pad 10 f.backend
      ∷ pad 5 (decimal f.epoch)
      ∷ pad 20 (env.show_time f.verified_at)
      ∷ f.payload_summary
      ∷ []

  -- The facts in the file.
  unfoldable pub local_facts : Cli F → M env (List FactNode)
  local_facts cli = do
    fg ← lift env fact_graph (λ w. (load_fact_graph fs env.graph cli.fact_graph_path w, w))
    pure (ok (values fg.nodes))

  unfoldable pub query_facts :
      Cli F → (tag backend : Option Text) (epoch : Option ℕ) → M env (Unit {0})
  unfolding fact_header local_facts filter_facts fact_cells
  query_facts cli tag backend epoch = do
    fetched ← fetch env env.facts (base_url cli ++ lit "/api/v1/facts")
    facts ← or_local env fetched (local_facts cli)
    print_table env (lit "No verified facts found matching criteria.") fact_header fact_cells
        (filter_facts tag backend epoch facts)

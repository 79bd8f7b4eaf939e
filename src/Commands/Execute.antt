-- ===== src/Commands/Execute.antt =====
-- src/main.rs, `execute_subcommand`: the client is built first, whatever the subcommand.
use researcher_agent_kube_en.Base.{List, [], ◌∷◌, ok, Text, lit}
use researcher_agent_kube_en.Base.Steps.{◌>>◌, pure}
use researcher_agent_kube_en.Platform.{Timestamp}
use researcher_agent_kube_en.Config.{Cli}
use researcher_agent_kube_en.Commands.{Surroundings, Subcommand, http}
use researcher_agent_kube_en.Commands.Console.{M, lift, print}
use researcher_agent_kube_en.Commands.Facts.{query_facts}
use researcher_agent_kube_en.Commands.History.{list_history, search}
use researcher_agent_kube_en.Commands.Vectors.{list_vectors, add_vector, neutralize}
use researcher_agent_kube_en.Commands.Pods.{pod_status, pod_logs}

-- What `help-guide` prints.
unfoldable pub help_text : List Text
help_text =
    lit "================================================================================"
    ∷ lit "RAKET CLI Tool - Detailed Command Guide"
    ∷ lit "================================================================================"
    ∷ lit "The RAKET CLI enables real-time auditing and steering of the background "
    ∷ lit "autonomous mathematical researcher pods running in Kubernetes.\n"
    ∷ lit "1. Query Committed Facts"
    ∷ lit "   Lists all permanently committed mathematical findings that successfully passed"
    ∷ lit "   formal verification."
    ∷ lit
        "   Usage:   cargo run --bin controller -- query-facts [--tag <TAG>] [--backend <BACKEND>] [--epoch <EPOCH>]"
    ∷ lit "   Example: cargo run --bin controller -- query-facts --tag raket\n"
    ∷ lit "2. List History"
    ∷ lit "   Lists all historical mathematical conjectures and theories submitted to the"
    ∷ lit "   formal verification sandbox (both passed and failed)."
    ∷ lit
        "   Usage:   cargo run --bin controller -- list-history [--backend <BACKEND>] [--status <passed|failed>] [--epoch <EPOCH>]"
    ∷ lit "   Example: cargo run --bin controller -- list-history --status failed\n"
    ∷ lit "3. Search by Proof Hash"
    ∷ lit "   Retrieve the exact Python code and standard output/error trace of any "
    ∷ lit "   conjecture or attempt matching a specific payload hash."
    ∷ lit "   Usage:   cargo run --bin controller -- search <HASH>"
    ∷ lit
        "   Example: cargo run --bin controller -- search df87a39704b58d35dba1767cb13c0208b4bdc76190e508b6273d4be7ec03635f\n"
    ∷ lit "4. Steering Ground Vectors"
    ∷ lit "   - List Vectors:"
    ∷ lit "     Displays all current steering directives in the ledger that control the agent."
    ∷ lit "     Usage:   cargo run --bin controller -- list-vectors"
    ∷ lit "   - Add Vector:"
    ∷ lit "     Injects a new steering directive to influence future epochs. Immediate policy"
    ∷ lit "     triggers an instant warm-pool pod promotion."
    ∷ lit
        "     Usage:   cargo run --bin controller -- add-vector --label <LABEL> --content <CONTENT> [--weight <WEIGHT>] [--policy <immediate|next_epoch>]"
    ∷ lit
        "     Example: cargo run --bin controller -- add-vector --label \"Symmetry\" --content \"Favor divisor symmetries\" --policy immediate"
    ∷ lit "   - Neutralize Vector:"
    ∷ lit "     Soft-deletes a directive to disable its influence."
    ∷ lit "     Usage:   cargo run --bin controller -- neutralize <ID>"
    ∷ lit "================================================================================"
    ∷ []

module _ {F : Type 0} (env : Surroundings F) where
  -- The branch of a subcommand; the identifier and the time are those of a change of the ledger.
  unfoldable pub dispatch : Cli F → (id : Text) (now : Timestamp) → Subcommand F → M env (Unit {0})
  unfolding query_facts list_history search list_vectors add_vector neutralize pod_status pod_logs
      help_text
  dispatch cli id now Subcommand.run = pure (ok tt)
  dispatch cli id now (Subcommand.query_facts tag backend epoch) =
      query_facts env cli tag backend epoch
  dispatch cli id now (Subcommand.list_history backend status epoch) =
      list_history env cli backend status epoch
  dispatch cli id now (Subcommand.search hash) = search env cli hash
  dispatch cli id now Subcommand.list_vectors = list_vectors env cli
  dispatch cli id now (Subcommand.add_vector label content weight policy) =
      add_vector env cli label content weight policy id now
  dispatch cli id now (Subcommand.neutralize target) = neutralize env cli target now
  dispatch cli id now Subcommand.help_guide = print env help_text
  dispatch cli id now Subcommand.pod_status = pod_status env cli
  dispatch cli id now (Subcommand.pod_logs pod_name tail) = pod_logs env cli pod_name tail

  unfoldable pub execute_subcommand :
      Cli F → (id : Text) (now : Timestamp) → Subcommand F → M env (Unit {0})
  unfolding dispatch
  execute_subcommand cli id now cmd = do
    lift env http (λ w. (env.client.build, w))
    dispatch cli id now cmd

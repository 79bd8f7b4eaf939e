-- ===== src/Examples/Handlers.antt =====
-- Requests to the controller: a verification that succeeds, the listings, and the ground vectors.
use researcher_agent_kube_en.Base.{
  ℕ, ◌≡◌, refl, ◌⊎◌, ◌||◌, true, false, [], ◌∷◌, none, some, ok, err, Text, lit, text_eq, retain,
  if◌then◌else◌,
}
use researcher_agent_kube_en.Base.Strings.{trim}
use researcher_agent_kube_en.Base.Maps.{lookup, contains_key}
use researcher_agent_kube_en.Verify.Parse.{interpreter}
use researcher_agent_kube_en.Verify.Run.{verify, run_sandbox, write_payload, run_command}
use researcher_agent_kube_en.Platform.Subprocess.{Subprocess, finished}
use researcher_agent_kube_en.FactGraph.{
  VerificationAttempt, contains_hash, log_attempt, commit_fact, save_fact_graph,
}
use researcher_agent_kube_en.Ledger.{LedgerError, save_ledger}
use researcher_agent_kube_en.Api.{
  AppState, internal, VerifyApiRequest, VerifyApiResponse, AddGroundVectorRequest,
  HistoryQueryParams,
}
use researcher_agent_kube_en.Api.Verification.{
  Draws, api_verify, verify_and_record, backend_of, run_verification, record_result, log_result,
  commit_result,
}
use researcher_agent_kube_en.Api.Verification.Accounts.{Accounted, api_verify-accounts}
use researcher_agent_kube_en.Api.Verification.Effects.{api_verify-fact_hash}
use researcher_agent_kube_en.Api.Verification.Audit.{IsAudited, IsFair}
use researcher_agent_kube_en.Api.History.{selects, list_history, list_history-selects}
use researcher_agent_kube_en.Api.Vectors.{ledger_error_text, add_ground_vector}
use researcher_agent_kube_en.Api.Vectors.Outcome.{
  requested_entry, confirmation, add_ground_vector_outcome,
}
use researcher_agent_kube_en.Examples.{plain_digest, disk, prover}
use researcher_agent_kube_en.Examples.Signing.{served}
use researcher_agent_kube_en.Examples.Stores.{graph_json, ledger, ledger_json}
use researcher_agent_kube_en.Examples.Provers.{prints}

abbrev pub request : VerifyApiRequest
request = record {
  backend = lit "sandbox";
  payload = lit "print(42)";
  sandbox_language = none;
  sandbox_expected_output = some (lit "42");
  sandbox_stdin = none;
  fact_tags = lit "answer" ∷ [];
  epoch = some 3;
}

abbrev pub draws : Draws
draws = record { attempt_id = lit "t1"; submitted_at = 10; fact_id = lit "f1"; verified_at = 11 }

abbrev pub shell : Subprocess disk.World disk.IoError
shell = prover (finished (prints (lit "42")))

-- An empty graph that is never saved.
abbrev state : AppState Text ℕ
state = record served {
  fact_graph = record { nodes = []; attempts = []; path = [] };
  ledger = ledger;
}

alone : IsFair plain_digest disk shell graph_json (λ s. s)
alone = record { keeps_log = λ s a m. m; keeps_audit = λ s v. v }

state-IsAudited : IsAudited state.fact_graph
unfolding lookup
state-IsAudited hash n e = cc

abbrev answer : VerifyApiResponse
answer = record {
  success = true;
  backend = lit "sandbox-python3";
  stdout = lit "42";
  stderr = [];
  tactic_goals = [];
  error_message = none;
  fact_hash = some (lit "print(42)");
}

answered :
    (api_verify plain_digest disk shell graph_json state request draws (λ s. s) (λ s. s) []).0
    ≡ ok answer
unfolding api_verify verify_and_record backend_of run_verification record_result log_result
    commit_result log_attempt commit_fact verify run_sandbox trim lit interpreter text_eq
    write_payload run_command save_fact_graph contains_key
answered = refl

api_verify-fact_hash_example :
    (lit "print(42)" ≡ lit "print(42)")
    × (true ≡ true)
    × (contains_hash
          (api_verify plain_digest disk shell graph_json state request draws
            (λ s. s)
            (λ s. s)
            []).1.fact_graph
          (lit "print(42)")
        ≡ true)
api_verify-fact_hash_example =
    api_verify-fact_hash plain_digest disk shell graph_json state request draws (λ s. s) (λ s. s) []
      answer (lit "print(42)") answered refl

api_verify-accounts_example :
    let (r, state', w') =
      api_verify plain_digest disk shell graph_json state request draws (λ x. x) (λ x. x) [] in
    Accounted plain_digest request draws r state.fact_graph state'.fact_graph
    × (state' ≡ record state { fact_graph = state'.fact_graph })
api_verify-accounts_example =
    api_verify-accounts plain_digest disk shell graph_json state request draws []

abbrev attempt : VerificationAttempt
attempt = record {
  id = lit "t1";
  payload = lit "print(42)";
  payload_hash = lit "print(42)";
  backend = lit "z3";
  success = true;
  stdout = [];
  stderr = [];
  tactic_goals = [];
  error_message = none;
  submitted_at = 10;
  epoch = 3;
  tags = [];
}

abbrev used : AppState Text ℕ
used = record state { fact_graph = record { nodes = []; attempts = attempt ∷ []; path = [] } }

abbrev passed_by_z3 : HistoryQueryParams
passed_by_z3 = record { backend = some (lit "z3"); status = some (lit "passed"); epoch = none }

list_history-selects_example :
    list_history used passed_by_z3 ≡ retain (selects passed_by_z3) (attempt ∷ [])
list_history-selects_example = list_history-selects used passed_by_z3

abbrev steering : AddGroundVectorRequest ℕ
steering = record {
  label = lit "topic";
  content = lit "sums";
  weight = 500;
  rotation_policy = lit "immediate";
}

add_ground_vector_outcome_example :
    let (r, state', w') = add_ground_vector disk ledger_json state steering (lit "e3") 7 [] in
    ((j : Text)
      → lookup j state'.ledger.entries ≡ (
          if text_eq (lit "e3") j
          then some (requested_entry steering (lit "e3") 7)
          else lookup j ledger.entries))
    × (state'.ledger.path ≡ ledger.path)
    × (state'.pending_state ≡ state.pending_state)
    × (state'.fact_graph ≡ state.fact_graph)
    × (w' ≡ (save_ledger disk ledger_json state'.ledger []).1)
    × (((save_ledger disk ledger_json state'.ledger []).0 ≡ ok tt)
          × (r ≡ ok (confirmation steering (lit "e3")))
          × (state'.rotation_trigger ≡ (text_eq (lit "immediate") (lit "immediate") || false))
        ⊎ ((e : LedgerError (Unit {0}) (Unit {0})) × ((save_ledger disk ledger_json state'.ledger
                []).0
              ≡ err e)
            × (r ≡ err (internal (ledger_error_text disk.io_text ledger_json.serde_text e)))
            × (state'.rotation_trigger ≡ false)))
add_ground_vector_outcome_example =
    add_ground_vector_outcome disk ledger_json state steering (lit "e3") 7 []

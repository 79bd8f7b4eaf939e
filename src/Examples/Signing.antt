-- ===== src/Examples/Signing.antt =====
-- States of an agent and their signatures, and the states that the controller takes in.
use researcher_agent_kube_en.Base.{
  ℕ, ◌≡◌, refl, ◌≢◌, ◌⊎◌, ◌++◌, [], ◌∷◌, none, some, ok, err, Text, lit, false, arith, text_eq_refl,
}
use researcher_agent_kube_en.State.{AgentState, SemanticContext, compute_signature, signed_text}
use researcher_agent_kube_en.State.Signature.{IsNamed, compute_signature-binds}
use researcher_agent_kube_en.FactGraph
use researcher_agent_kube_en.Ledger
use researcher_agent_kube_en.Verify
use researcher_agent_kube_en.Api.{AppState, rejected, accepted_202}
use researcher_agent_kube_en.Api.Ingest.{ingest_state, ingest_state_outcome, ingest_state-tampered}
use researcher_agent_kube_en.Examples.{plain_digest, plain_digest-IsCollisionFree}

abbrev pub key : Text
key = lit "k3y"

abbrev pub nothing_found : SemanticContext
nothing_found = record {
  sanitized_summary = [];
  key_findings = [];
  scratchpad_tokens = [];
  source_urls = [];
}

abbrev pub named : Text → Text → AgentState Text
named agent pod = record {
  agent_id = agent;
  pod_name = pod;
  namespace = lit "raket";
  captured_at = 0;
  dag = record { nodes = []; current_task_pointer = none; epoch = 7 };
  semantic = nothing_found;
  signature = [];
}

abbrev pub signed : Text → Text → AgentState Text
signed agent pod = record (named agent pod) {
  signature = compute_signature plain_digest (named agent pod) key;
}

-- With a finding that the agent has not made.
abbrev pub forged : AgentState Text
forged = record (signed (lit "a1") (lit "p1")) {
  semantic = record nothing_found { key_findings = lit "invented" ∷ [] };
}

abbrev pub served : AppState Text ℕ
served = record {
  pending_state = none;
  llm_api_key = key;
  verification_engine = Verify.new (λ v. none) (lit "/tmp") 30;
  fact_graph = FactGraph.new (lit "facts.json");
  ledger = Ledger.new (lit "ledger.json");
  rotation_trigger = false;
}

named-IsNamed : IsNamed (named (lit "a1") (lit "p1"))
unfolding lit
named-IsNamed = record {
  agent_plain = ground arith;
  pod_plain = ground arith;
  epoch_u64 = omega arith;
}

compute_signature-binds_example :
    (lit "a1" ≡ lit "a1")
    × (lit "p1" ≡ lit "p1")
    × ((named (lit "a1") (lit "p1")).dag.epoch ≡ forged.dag.epoch)
    × (key ≡ key)
compute_signature-binds_example =
    compute_signature-binds plain_digest (named (lit "a1") (lit "p1")) (named (lit "a1") (lit "p1"))
      key key plain_digest-IsCollisionFree named-IsNamed named-IsNamed refl

ingest_state_outcome_example :
    ((compute_signature plain_digest (named (lit "a1") (lit "p1")) key
        ≡ compute_signature plain_digest (signed (lit "a1") (lit "p1")) key)
      × (ingest_state plain_digest served (signed (lit "a1") (lit "p1")) ≡ (
        ok accepted_202,
        record served { pending_state = some (signed (lit "a1") (lit "p1")) },
      )))
    ⊎ ((compute_signature plain_digest (named (lit "a1") (lit "p1")) key
          ≢ compute_signature plain_digest (signed (lit "a1") (lit "p1")) key)
        × (ingest_state plain_digest served (signed (lit "a1") (lit "p1"))
            ≡ (err (rejected (lit "Invalid signature for pod " ++ lit "p1")), served)))
ingest_state_outcome_example =
    ingest_state_outcome plain_digest served (signed (lit "a1") (lit "p1"))

ingested : (ingest_state plain_digest served (signed (lit "a1") (lit "p1"))).0 ≡ ok accepted_202
unfolding ingest_state compute_signature signed_text
ingested =
    ground (arith, text_eq_refl (compute_signature plain_digest (named (lit "a1") (lit "p1")) key))

ingest_state-tampered_example :
    ingest_state plain_digest served forged
    ≡ (ok accepted_202, record served { pending_state = some forged })
ingest_state-tampered_example =
    ingest_state-tampered plain_digest served (signed (lit "a1") (lit "p1")) forged ingested refl
      refl refl refl

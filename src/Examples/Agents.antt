-- ===== src/Examples/Agents.antt =====
-- A shim that sends its state, and the shim that starts from it.
use researcher_agent_kube_en.Base.{
  ◌≡◌, ◌++◌, ℕ, ◌+◌, Result, arith, List, [], ◌∷◌, ok, Text, lit, Map,
}
use researcher_agent_kube_en.Controller.{EnvVar, plain}
use researcher_agent_kube_en.Controller.Manifest.{base_env}
use researcher_agent_kube_en.Shim.{ShimRuntime, initial_dag, initial_semantic}
use researcher_agent_kube_en.State.{AgentState}
use researcher_agent_kube_en.Shim.{serialize_and_transmit}
use researcher_agent_kube_en.Shim.Interceptor.{
  sigterm, run_signal_interceptor, run_signal_interceptor_ends,
}
use researcher_agent_kube_en.Examples.{plain_digest}
use researcher_agent_kube_en.Examples.Signing.{key}
use researcher_agent_kube_en.Examples.Pods.{config}

abbrev shim : ShimRuntime Text
shim = record {
  agent_id = lit "a1";
  pod_name = lit "p1";
  namespace = lit "raket";
  controller_endpoint = lit "http://raket-controller:8080";
  llm_api_key = key;
  dag = initial_dag (lit "n1");
  semantic = initial_semantic;
}

-- What the image of the agents sets.
abbrev image_env : Map Text
image_env =
    (lit "POD_NAME", lit "unknown-pod")
    ∷ (lit "POD_NAMESPACE", lit "raket")
    ∷ (lit "LLM_API_KEY", [])
    ∷ []

abbrev pod_vars : List EnvVar
pod_vars =
    base_env config ++ record { name = lit "INITIAL_STATE"; value = plain (lit "{state}") } ∷ []

-- A network that counts the messages.
abbrev count_posts : Text → AgentState Text → ℕ → Result (Unit {0}) (Unit {0}) × ℕ
count_posts url s n = (ok tt, n + 1)

run_signal_interceptor_ends_example :
    run_signal_interceptor plain_digest count_posts shim 12 (ok (1 ∷ sigterm ∷ sigterm ∷ [])) 0
    ≡ (ok tt, (serialize_and_transmit plain_digest count_posts shim 12 0).1, sigterm ∷ [])
run_signal_interceptor_ends_example =
    run_signal_interceptor_ends plain_digest count_posts shim 12 (1 ∷ []) (sigterm ∷ []) 0
      (λ e. ground arith, tt)

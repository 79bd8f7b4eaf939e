-- ===== src/Controller/Manifest.antt =====
-- src/controller.rs, `build_agent_pod_manifest`.
use researcher_agent_kube_en.Base.{
  Bool, false, ◌++◌, List, [], ◌∷◌, Option, none, some, Result, ok, err, Text, lit, if◌then◌else◌,
}
use researcher_agent_kube_en.Base.Decimal.{decimal}
use researcher_agent_kube_en.Base.Maps.{insert}
use researcher_agent_kube_en.Platform.{Json}
use researcher_agent_kube_en.Config.{Config}
use researcher_agent_kube_en.State.{AgentState}
use researcher_agent_kube_en.Controller.{
  ControllerError, serde_error, EnvVar, plain, secret_key_ref, Pod,
}

-- The variables that every agent has.
unfoldable pub base_env : Config → List EnvVar
base_env config =
    record {
      name = lit "LLM_API_KEY";
      value = secret_key_ref (lit "raket-secrets") (lit "llm-api-key") false;
    }
    ∷ record {
      name = lit "CONTROLLER_ENDPOINT";
      value = plain (lit "http://raket-controller:" ++ decimal config.controller_port);
    }
    ∷ []

unfoldable pub pod_with_env : Text → Config → Bool → List EnvVar → Pod
pod_with_env name config warm env = record {
  name = name;
  namespace = config.target_namespace;
  labels =
      insert (lit "role") (if warm then lit "warm" else lit "active")
        (insert (lit "app") (lit "raket-agent") []);
  restart_policy = lit "Never";
  anti_affinity_labels = insert (lit "app") (lit "raket-agent") [];
  topology_key = lit "kubernetes.io/hostname";
  container_name = lit "agent";
  image = config.agent_image;
  image_pull_policy = lit "IfNotPresent";
  env = env;
  requests = insert (lit "cpu") (lit "250m") (insert (lit "memory") (lit "512Mi") []);
}

module _ {V : Type 0} (K : Type 0) (js : Json (AgentState V)) where
  -- The environment with the state to start from, if there is one.
  unfoldable pub agent_env :
      Config → Option (AgentState V) → Result (List EnvVar) (ControllerError K js.SerdeError)
  unfolding base_env
  agent_env config none = ok (base_env config)
  agent_env config (some state) = elim (js.to_string state) [
    | err e ↦ err (serde_error e)
    | ok serialized ↦
        ok (base_env config ++ record { name = lit "INITIAL_STATE"; value = plain serialized } ∷ [])
  ]

  unfoldable pub build_agent_pod_manifest :
      Text → Config → Bool → Option (AgentState V) → Result Pod (ControllerError K js.SerdeError)
  unfolding agent_env pod_with_env
  build_agent_pod_manifest name config warm injected_state =
      elim (agent_env config injected_state) [
        | ok env ↦ ok (pod_with_env name config warm env)
        | err e ↦ err e
      ]

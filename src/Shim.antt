-- ===== src/Shim.antt =====
-- src/shim.rs: the shim in an agent's pod. It starts from its environment and, on SIGTERM, signs the
-- agent's state and posts it to the controller. `V` is
-- `serde_json::Value`; a shared task graph or context is its value at the time it is read.
pub mod Handoff
pub mod Start
pub mod Interceptor
pub mod Main
use researcher_agent_kube_en.Base.{
  ◌++◌, List, [], ◌∷◌, Option, none, some, Result, ok, err, ok_or, ◌>>=◌, Text, lit, unwrap_or,
}
use researcher_agent_kube_en.Platform.{Digest, Json, Timestamp}
use researcher_agent_kube_en.State.{
  pending, DagNode, ExecutionDag, SemanticContext, AgentState, compute_signature,
}

-- The error of a serialization stands as its text; no function of the shim makes one.
pub data ShimError (Http : Type 0) : Type 0 where
  http : Http → ShimError Http
  serde : Text → ShimError Http
  env : Text → ShimError Http

pub record ShimRuntime (V : Type 0) : Type 0 where
  pub agent_id : Text
  pub pod_name : Text
  pub namespace : Text
  pub controller_endpoint : Text
  pub llm_api_key : Text
  pub dag : ExecutionDag V
  pub semantic : SemanticContext

-- The task graph without a state to start from, with the UUID of its only node.
unfoldable pub initial_dag : {V : Type 0} → Text → ExecutionDag V
initial_dag id = record {
  nodes =
      record {
        id = id;
        task_type = lit "research_init";
        dependencies = [];
        status = pending;
        metadata = [];
      }
      ∷ [];
  current_task_pointer = none;
  epoch = 0;
}

unfoldable pub initial_semantic : SemanticContext
initial_semantic = record {
  sanitized_summary = [];
  key_findings = [];
  scratchpad_tokens = [];
  source_urls = [];
}

-- The state in `INITIAL_STATE`, if it is set and can be read.
unfoldable pub injected : {V : Type 0} → Json (AgentState V) → Option Text → Option (AgentState V)
injected js none = none
injected js (some s) = elim (js.from_str s) [ ok a ↦ some a | err e ↦ none ]

-- `ShimRuntime::from_env`, with the environment as a function and the UUIDs of the first node and of
-- the agent.
unfoldable pub from_env :
    {V Http : Type 0}
    → Json (AgentState V)
    → (Text → Option Text)
    → (node_id agent_id : Text) → Result (ShimRuntime V) (ShimError Http)
unfolding initial_dag initial_semantic injected
from_env {V = V} {Http = Http} js var node_id agent_id = do
  pod_name ← ok_or (var (lit "POD_NAME")) (env (lit "POD_NAME"))
  namespace ← ok_or (var (lit "POD_NAMESPACE")) (env (lit "POD_NAMESPACE"))
  controller_endpoint ← ok_or (var (lit "CONTROLLER_ENDPOINT")) (env (lit "CONTROLLER_ENDPOINT"))
  llm_api_key ← ok_or (var (lit "LLM_API_KEY")) (env (lit "LLM_API_KEY"))
  let state = injected js (var (lit "INITIAL_STATE"))
  ok (record {
    agent_id = agent_id;
    pod_name = pod_name;
    namespace = namespace;
    controller_endpoint = controller_endpoint;
    llm_api_key = llm_api_key;
    dag = elim state [ some a ↦ a.dag | none ↦ initial_dag node_id ];
    semantic = elim state [ some a ↦ a.semantic | none ↦ initial_semantic ];
  })

-- The state that is sent, with its signature.
unfoldable pub captured_state : {V : Type 0} → Digest → ShimRuntime V → Timestamp → AgentState V
captured_state {V = V} d runtime now =
    let state : AgentState V = record {
      agent_id = runtime.agent_id;
      pod_name = runtime.pod_name;
      namespace = runtime.namespace;
      captured_at = now;
      dag = runtime.dag;
      semantic = runtime.semantic;
      signature = [];
    } in
    record state { signature = compute_signature d state runtime.llm_api_key }

-- `serialize_and_transmit`, over what the HTTP client does with a request to a URL.
unfoldable pub serialize_and_transmit :
    {V Http World : Type 0}
    → Digest
    → (Text → AgentState V → World → Result (Unit {0}) Http × World)
    → ShimRuntime V
    → Timestamp
    → World
    → Result (Unit {0}) (ShimError Http) × World
unfolding captured_state
serialize_and_transmit d post runtime now w =
    let (r, w') =
      post (runtime.controller_endpoint ++ lit "/state/ingest") (captured_state d runtime now) w in
    (elim r [ ok u ↦ ok u | err e ↦ err (http e) ], w')

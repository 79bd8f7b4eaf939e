-- ===== src/Shim/Main.antt =====
-- src/shim_main.rs, `main`, and the way of a state through a pod: from the manifest by which the
-- controller made the pod to the handler that takes the state in.
use researcher_agent_kube_en.Base.{
  ◌++◌, List, [], Option, none, some, Result, ok, err, ℕ, Text, lit, text_eq, if◌then◌else◌,
}
use researcher_agent_kube_en.Base.Decimal.{decimal}
use researcher_agent_kube_en.Platform.{Digest, Json, Timestamp}
use researcher_agent_kube_en.Config.{Config}
use researcher_agent_kube_en.State.{AgentState}
use researcher_agent_kube_en.Api.{AppState, ApiError}
use researcher_agent_kube_en.Api.Ingest.{ingest_state}
use researcher_agent_kube_en.Shim.{ShimError, from_env}
use researcher_agent_kube_en.Shim.Interceptor.{run_signal_interceptor}

-- `main`: nothing but the interceptor holds the runtime, so it is at the signal what it was at the start.
unfoldable pub main :
    {V Http World : Type 0}
    → Digest
    → (Text → AgentState V → World → Result (Unit {0}) Http × World)
    → Json (AgentState V)
    → (Text → Option Text)
    → (node_id agent_id : Text) (registered : Result (List ℕ) Text) → Timestamp
    → World
    → Result (Unit {0}) (ShimError Http) × World × List ℕ
main {Http = Http} d post js var node_id agent_id registered now w =
    elim (from_env {Http = Http} js var node_id agent_id) [
      | err e ↦ (err e, w, [])
      | ok runtime ↦ run_signal_interceptor d post runtime now registered w
    ]

-- A network that has the controller's handler behind one URL; other URLs find nobody.
abbrev pub deliver :
    {V F : Type 0}
    → Digest
    → (ingest_url : Text) → Text
    → AgentState V
    → AppState V F
    → Result (Unit {0}) (Option ApiError) × AppState V F
deliver d ingest_url url payload app =
    let (r, app') = ingest_state d app payload in
    if text_eq url ingest_url
    then (elim r [ ok status ↦ ok tt | err e ↦ err (some e) ], app')
    else (err none, app)

-- Where a shim of the configuration posts to.
abbrev pub ingest_url : Config → Text
ingest_url config =
    (lit "http://raket-controller:" ++ decimal config.controller_port) ++ lit "/state/ingest"

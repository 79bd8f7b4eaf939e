-- ===== src/Daemon/Serving.antt =====
-- src/main.rs, `main`: the daemon from its start on, as a server of requests.
use researcher_agent_kube_en.Base.{[], List, ◌∷◌, Text, arith}
use researcher_agent_kube_en.Base.Maps.{lookup}
use researcher_agent_kube_en.Platform.{Digest, Files, Json}
use researcher_agent_kube_en.Platform.Float.{Float}
use researcher_agent_kube_en.Platform.Subprocess.{Subprocess}
use researcher_agent_kube_en.Config.{Config}
use researcher_agent_kube_en.FactGraph
use researcher_agent_kube_en.FactGraph.{FactGraph}
use researcher_agent_kube_en.FactGraph.Facts.{IsIndexed}
use researcher_agent_kube_en.Ledger
use researcher_agent_kube_en.Ledger.{Ledger}
use researcher_agent_kube_en.Ledger.Entries.{IsConsistent, add_entry-IsConsistent, new-IsConsistent}
use researcher_agent_kube_en.Verify.{VerificationEngine}
use researcher_agent_kube_en.Api.Verification.Audit.{IsAudited}
use researcher_agent_kube_en.Api.Server.{Server, Steps}
use researcher_agent_kube_en.Api.Server.Soundness.{IsSound, Steps-IsSound}
use researcher_agent_kube_en.Daemon.{start}
use researcher_agent_kube_en.Daemon.Startup.{Raw, parse_ground_vector, add_raw, add_ground_vectors}

add_ground_vectors-IsConsistent :
    (fl : Float) (raws : List Raw) (l : Ledger fl.F64)
    → IsConsistent l
    → IsConsistent (add_ground_vectors fl l raws)
unfolding add_ground_vectors add_raw
add_ground_vectors-IsConsistent fl [] l v = v
add_ground_vectors-IsConsistent fl (raw ∷ raws) l v =
    let g = parse_ground_vector fl raw.text in
    add_ground_vectors-IsConsistent fl raws (add_raw fl l raw)
      (add_entry-IsConsistent l g.label g.content g.weight g.policy raw.id raw.now v)

new_graph-IsIndexed : (path : Text) → IsIndexed (FactGraph.new path)
unfolding FactGraph.new
new_graph-IsIndexed path = record { keyed = tt; distinct = tt; short = tt }

new_graph-IsAudited : (path : Text) → IsAudited (FactGraph.new path)
unfolding FactGraph.new lookup
new_graph-IsAudited path hash n e = cc

-- The server of a daemon that has started with a graph and a ledger: no request runs.
abbrev pub serving :
    {V F W : Type 0} → Config → VerificationEngine → FactGraph → Ledger F → W → Server V F W
serving config engine graph ledger w = record {
  app = (start config engine graph ledger).app;
  world = w;
  tasks = [];
}

serving-IsSound :
    {V F W : Type 0} (d : Digest) (config : Config) (engine : VerificationEngine)
    (graph : FactGraph) (ledger : Ledger F) (w : W)
    → IsIndexed graph
    → IsAudited graph
    → IsConsistent ledger
    → IsSound {V = V} d (serving config engine graph ledger w)
unfolding start
serving-IsSound d config engine graph ledger w indexed audited consistent = record {
  signed = λ p e. ground arith;
  indexed = indexed;
  audited = audited;
  consistent = consistent;
  proved = tt;
}

module _ {V : Type 0} (fl : Float) (d : Digest) (fs : Files) (sp : Subprocess fs.World fs.IoError)
    (js : Json FactGraph) (ledger_js : Json (Ledger fl.F64)) where
  -- A daemon that starts without files, whatever its configuration and the ground vectors of the
  -- command line: every state of the server that any requests reach is sound.
  pub first_run-IsSound :
      (config : Config) (engine : VerificationEngine) (graph_path ledger_path : Text)
      (raws : List Raw) (w : fs.World) (t : Server V fl.F64 fs.World)
      → let graph = FactGraph.new graph_path in
        let ledger = add_ground_vectors fl (Ledger.new ledger_path) raws in
        Steps d fs sp js ledger_js (serving config engine graph ledger w) t → IsSound d t
  first_run-IsSound config engine graph_path ledger_path raws w t steps =
      let graph = FactGraph.new graph_path in
      let ledger = add_ground_vectors fl (Ledger.new ledger_path) raws in
      Steps-IsSound d fs sp js ledger_js steps (
        serving-IsSound d config engine graph ledger w (new_graph-IsIndexed graph_path)
          (new_graph-IsAudited graph_path)
          (add_ground_vectors-IsConsistent fl raws (Ledger.new ledger_path)
            (new-IsConsistent ledger_path)))

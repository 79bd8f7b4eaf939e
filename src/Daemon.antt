-- ===== src/Daemon.antt =====
-- src/main.rs, `main`: the two states that the daemon keeps, that of the HTTP handlers and that of the
-- controller, and the tasks that it runs on them.
pub mod Startup
pub mod Handover
pub mod Serving
use researcher_agent_kube_en.Base.{none, false, Text}
use researcher_agent_kube_en.Config.{Config}
use researcher_agent_kube_en.FactGraph.{FactGraph}
use researcher_agent_kube_en.Ledger.{Ledger}
use researcher_agent_kube_en.Verify.{VerificationEngine}
use researcher_agent_kube_en.Api.{AppState}
use researcher_agent_kube_en.Controller.{ControllerState, new}

pub record Daemon (V F : Type 0) : Type 0 where
  pub app : AppState V F
  pub ctrl : ControllerState V

unfoldable pub start :
    {V F : Type 0} → Config → VerificationEngine → FactGraph → Ledger F → Daemon V F
unfolding new
start config engine graph ledger = record {
  app = record {
    pending_state = none;
    llm_api_key = config.llm_api_key;
    verification_engine = engine;
    fact_graph = graph;
    ledger = ledger;
    rotation_trigger = false;
  };
  ctrl = new config;
}

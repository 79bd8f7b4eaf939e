-- ===== src/Api/Server.antt =====
-- src/api.rs, the requests at once: each section that a handler runs under a lock, or without one, is a
-- step on the shared state and the files, and the steps of several requests interleave as they like.
-- The verification of a payload is one step, the log of its attempt another, the commit a third.
pub mod Sections
pub mod Soundness
pub mod Permanence
pub mod Alone
use researcher_agent_kube_en.Base.{◌≡◌, List, ◌++◌, ◌∷◌, Result, ok, err, Text}
use researcher_agent_kube_en.Platform.{Digest, Files, Json, Timestamp}
use researcher_agent_kube_en.Platform.Subprocess.{Subprocess}
use researcher_agent_kube_en.State.{AgentState}
use researcher_agent_kube_en.FactGraph.{FactGraph}
use researcher_agent_kube_en.Ledger.{Ledger}
use researcher_agent_kube_en.Verify.{VerifierBackend, VerificationResult}
use researcher_agent_kube_en.Api.{AppState, ApiError, VerifyApiRequest, AddGroundVectorRequest}
use researcher_agent_kube_en.Api.Ingest.{ingest_state}
use researcher_agent_kube_en.Api.Verification.{
  Draws, Shared, backend_of, run_verification, log_result, commit_result,
}
use researcher_agent_kube_en.Api.Vectors.{add_ground_vector, neutralize_ground_vector}

-- How far a request of `api_verify` is: verified, or logged as well.
pub data Task : Type 0 where
  verified logged : (req : VerifyApiRequest) (result : VerificationResult) (draws : Draws) → Task

pub record Server (V F W : Type 0) : Type 0 where
  pub app : AppState V F
  pub world : W
  pub tasks : List Task

-- The graph and the files as a section leaves them, and the tasks that go on.
abbrev pub with_shared : {V F W : Type 0} → Server V F W → FactGraph × W → List Task → Server V F W
with_shared s (graph, w) tasks = record s {
  app = record s.app { fact_graph = graph };
  world = w;
  tasks = tasks;
}

-- A verification that ends well leaves a task, any other none.
abbrev pub started :
    VerifyApiRequest → Draws → Result VerificationResult ApiError → List Task → List Task
started req draws (ok result) tasks = verified req result draws ∷ tasks
started req draws (err e) tasks = tasks

module _ {V F : Type 0} (d : Digest) (fs : Files) (sp : Subprocess fs.World fs.IoError)
    (js : Json FactGraph) (ledger_js : Json (Ledger F)) where
  unfoldable pub ingest_section : AgentState V → Server V F fs.World → Server V F fs.World
  ingest_section payload s = record s { app = (ingest_state d s.app payload).1 }

  unfoldable pub verify_section :
      VerifyApiRequest → Draws → VerifierBackend → Server V F fs.World → Server V F fs.World
  verify_section req draws backend s =
      let (r, w) =
        run_verification d fs sp js s.app.verification_engine backend req.payload s.world in
      record s { world = w; tasks = started req draws r s.tasks }

  unfoldable pub log_section :
      VerifyApiRequest
      → VerificationResult
      → Draws
      → List Task
      → Server V F fs.World
      → Server V F fs.World
  log_section req result draws tasks s =
      with_shared s (log_result d fs sp js req result draws (s.app.fact_graph, s.world)) tasks

  unfoldable pub commit_section :
      VerifyApiRequest
      → VerificationResult
      → Draws
      → List Task
      → Server V F fs.World
      → Server V F fs.World
  commit_section req result draws tasks s =
      with_shared s (commit_result d fs sp js req result draws (s.app.fact_graph, s.world)).1 tasks

  unfoldable pub add_section :
      AddGroundVectorRequest F
      → (id : Text) (now : Timestamp) → Server V F fs.World
      → Server V F fs.World
  add_section req id now s =
      let (r, app, w) = add_ground_vector fs ledger_js s.app req id now s.world in
      record s { app = app; world = w }

  unfoldable pub neutralize_section :
      (id : Text) (now : Timestamp) → Server V F fs.World → Server V F fs.World
  neutralize_section id now s =
      let (r, app, w) = neutralize_ground_vector fs ledger_js s.app id now s.world in
      record s { app = app; world = w }

  pub data Step : Server V F fs.World → Server V F fs.World → Type 0 where
    ingest : (s : Server V F fs.World) (payload : AgentState V) → Step s (ingest_section payload s)
    verify :
        (s : Server V F fs.World) (req : VerifyApiRequest) (draws : Draws)
        (backend : VerifierBackend)
        → backend_of req ≡ ok backend
        → Step s (verify_section req draws backend s)
    log :
        (s : Server V F fs.World) (req : VerifyApiRequest) (result : VerificationResult)
        (draws : Draws) (before after : List Task)
        → s.tasks ≡ before ++ verified req result draws ∷ after
        → Step s (log_section req result draws (before ++ logged req result draws ∷ after) s)
    commit :
        (s : Server V F fs.World) (req : VerifyApiRequest) (result : VerificationResult)
        (draws : Draws) (before after : List Task)
        → s.tasks ≡ before ++ logged req result draws ∷ after
        → Step s (commit_section req result draws (before ++ after) s)
    add :
        (s : Server V F fs.World) (req : AddGroundVectorRequest F) (id : Text) (now : Timestamp)
        → Step s (add_section req id now s)
    neutralize :
        (s : Server V F fs.World) (id : Text) (now : Timestamp)
        → Step s (neutralize_section id now s)

  pub data Steps : Server V F fs.World → Server V F fs.World → Type 0 where
    done : (s : Server V F fs.World) → Steps s s
    more : (s t u : Server V F fs.World) → Steps s t → Step t u → Steps s u

-- ===== src/Api.antt =====
-- src/api.rs: the data of the controller's HTTP interface. A handler takes the shared state and the world
-- of the files, and returns its response with both anew. `V` is `serde_json::Value` and `F` is `f64`.
pub mod Ingest
pub mod Verification
pub mod History
pub mod Vectors
pub mod Server
use researcher_agent_kube_en.Base.{ℕ, Bool, List, Option, Text, lit, ◌++◌}
use researcher_agent_kube_en.FactGraph.{FactGraph}
use researcher_agent_kube_en.Ledger.{Ledger}
use researcher_agent_kube_en.State.{AgentState}
use researcher_agent_kube_en.Verify.{VerificationEngine}

-- `rotation_trigger` is a `tokio::sync::Notify`, as the permit that it holds or does not hold.
pub record AppState (V F : Type 0) : Type 0 where
  pub pending_state : Option (AgentState V)
  pub llm_api_key : Text
  pub verification_engine : VerificationEngine
  pub fact_graph : FactGraph
  pub ledger : Ledger F
  pub rotation_trigger : Bool

pub data ApiError : Type 0 where
  rejected internal : Text → ApiError

pub data StatusCode : Type 0 where
  ok_200 accepted_202 bad_request_400 internal_server_error_500 : StatusCode

unfoldable pub healthz : StatusCode
healthz = ok_200

-- `into_response`: the status and the body.
unfoldable pub into_response : ApiError → StatusCode × Text
into_response (rejected s) = (bad_request_400, lit "Payload rejected: " ++ s)
into_response (internal s) = (internal_server_error_500, lit "Internal error: " ++ s)

pub record VerifyApiRequest : Type 0 where
  pub backend : Text
  pub payload : Text
  pub sandbox_language : Option Text
  pub sandbox_expected_output : Option Text
  pub sandbox_stdin : Option Text
  pub fact_tags : List Text
  pub epoch : Option ℕ

pub record VerifyApiResponse : Type 0 where
  pub success : Bool
  pub backend : Text
  pub stdout : Text
  pub stderr : Text
  pub tactic_goals : List Text
  pub error_message : Option Text
  pub fact_hash : Option Text

pub record HistoryQueryParams : Type 0 where
  pub backend : Option Text
  pub status : Option Text
  pub epoch : Option ℕ

pub record AddGroundVectorRequest (F : Type 0) : Type 0 where
  pub label : Text
  pub content : Text
  pub weight : F
  pub rotation_policy : Text

-- The JSON that `add_ground_vector` answers; that of `neutralize_ground_vector` has no `rotation`.
pub record AddedVector : Type 0 where
  pub id : Text
  pub status : Text
  pub rotation : Text

pub record NeutralizedVector : Type 0 where
  pub id : Text
  pub status : Text

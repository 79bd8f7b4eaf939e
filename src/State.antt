-- ===== src/State.antt =====
-- src/state.rs: the agent's state, as it travels from a terminating pod to its successor, and its
-- signature. `V` is `serde_json::Value`.
pub mod Signature
use researcher_agent_kube_en.Base.{ℕ, List, ◌∷◌, ◌++◌, Option, Text, Map}
use researcher_agent_kube_en.Base.Decimal.{decimal}
use researcher_agent_kube_en.Platform.{Digest, Timestamp, hash_hex}

pub data DagNodeStatus : Type 0 where
  pending running completed failed : DagNodeStatus

pub record DagNode (V : Type 0) : Type 0 where
  pub id : Text
  pub task_type : Text
  pub dependencies : List Text
  pub status : DagNodeStatus
  pub metadata : Map V

pub record ExecutionDag (V : Type 0) : Type 0 where
  pub nodes : List (DagNode V)
  pub current_task_pointer : Option Text
  pub epoch : ℕ  -- u64

pub record SemanticContext : Type 0 where
  pub sanitized_summary : Text
  pub key_findings : List Text
  pub scratchpad_tokens : List Text
  pub source_urls : List Text

pub record AgentState (V : Type 0) : Type 0 where
  pub agent_id : Text
  pub pod_name : Text
  pub namespace : Text
  pub captured_at : Timestamp
  pub dag : ExecutionDag V
  pub semantic : SemanticContext
  pub signature : Text

-- `format!("{}:{}:{}:{}", self.agent_id, self.pod_name, self.dag.epoch, secret)`
unfoldable pub signed_text : {V : Type 0} → AgentState V → Text → Text
signed_text s secret =
    s.agent_id ++ b':' ∷ (s.pod_name ++ b':' ∷ (decimal s.dag.epoch ++ b':' ∷ secret))

unfoldable pub compute_signature : Digest → {V : Type 0} → AgentState V → Text → Text
unfolding signed_text
compute_signature d s secret = hash_hex d (signed_text s secret)

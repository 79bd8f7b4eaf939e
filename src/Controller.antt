-- ===== src/Controller.antt =====
-- src/controller.rs: the data of the controller, the manifests of its pods, and the cluster behind the
-- crate `kube`. `V` is `serde_json::Value`.
pub mod Manifest
pub mod Rotation
pub mod Outcomes
pub mod Pool
pub mod EpochLoop
pub mod Queue
pub mod Drained
use researcher_agent_kube_en.Base.{ℕ, Bool, List, [], Option, none, Result, Text, Map}
use researcher_agent_kube_en.Config.{Config}
use researcher_agent_kube_en.State.{AgentState}

pub data ControllerError (Kube Serde : Type 0) : Type 0 where
  kube_error : Kube → ControllerError Kube Serde
  serde_error : Serde → ControllerError Kube Serde
  state_verification_failed : Text → ControllerError Kube Serde
  warm_pool_exhausted : ControllerError Kube Serde

pub record ControllerState (V : Type 0) : Type 0 where
  pub config : Config
  pub pending_state : Option (AgentState V)
  pub active_pod_name : Option Text
  pub warm_pod_names : List Text

-- `Controller::new`, once the client is there.
unfoldable pub new : {V : Type 0} → Config → ControllerState V
new config = record {
  config = config;
  pending_state = none;
  active_pod_name = none;
  warm_pod_names = [];
}

-- Where an environment variable of a pod comes from: its text, or a key of a secret.
pub data EnvValue : Type 0 where
  plain : Text → EnvValue
  secret_key_ref : (name key : Text) (optional : Bool) → EnvValue

pub record EnvVar : Type 0 where
  pub name : Text
  pub value : EnvValue

-- The parts of a `Pod` that the program sets.
pub record Pod : Type 0 where
  pub name : Text
  pub namespace : Text
  pub labels : Map Text
  pub restart_policy : Text
  pub anti_affinity_labels : Map Text
  pub topology_key : Text
  pub container_name : Text
  pub image : Text
  pub image_pull_policy : Text
  pub env : List EnvVar
  pub requests : Map Text

-- The pods of a namespace behind `Api<Pod>`. `api_code` is the code of a `kube::Error::Api`.
pub record Kube : Type 1 where
  pub Cluster : Type 0
  pub KubeError : Type 0
  pub api_code : KubeError → Option ℕ
  pub create : (namespace : Text) → Pod → Cluster → Result (Unit {0}) KubeError × Cluster
  pub delete : (namespace name : Text) → Cluster → Result (Unit {0}) KubeError × Cluster
  -- A merge patch of the labels of the pod.
  pub patch_labels :
      (namespace name : Text) → Map Text → Cluster → Result (Unit {0}) KubeError × Cluster

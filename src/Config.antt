-- ===== src/Config.antt =====
-- src/config.rs and the options of cli.rs: the configuration of the daemon.
use researcher_agent_kube_en.Base.{ℕ, List, Text, lit, Result, map_err}

-- `Cli`, without the subcommand. `F` is `f64`.
pub record Cli (F : Type 0) : Type 0 where
  pub epoch : ℕ  -- u64
  pub llm_key : Text
  pub ground_vectors : List Text
  pub namespace : Text
  pub agent_image : Text
  pub warm_pool_size : ℕ  -- u32
  pub port : ℕ  -- u16
  pub fact_graph_path : Text
  pub ledger_path : Text
  pub verify_timeout_sec : ℕ  -- u64
  pub verify_work_dir : Text
  pub alignment_objective : Text
  pub alignment_threshold : F

pub record Config : Type 0 where
  pub target_namespace : Text
  pub agent_image : Text
  pub epoch_duration_sec : ℕ  -- u64
  pub llm_api_key : Text
  pub warm_pool_size : ℕ  -- u32
  pub controller_port : ℕ  -- u16
  pub state_endpoint : Text

unfoldable pub default_controller_port : ℕ
default_controller_port = 8080

unfoldable pub default_state_endpoint : Text
default_state_endpoint = lit "/state/ingest"

pub data ConfigError (Envy : Type 0) : Type 0 where
  env_error : Envy → ConfigError Envy

-- `Config::from_env`, over what `envy::from_env` gives.
unfoldable pub from_env : {Envy : Type 0} → Result Config Envy → Result Config (ConfigError Envy)
from_env {Envy} loaded = map_err {F = ConfigError Envy} env_error loaded

-- `Config::from_cli`
unfoldable pub from_cli : {F : Type 0} → Cli F → Config
from_cli cli = record {
  target_namespace = cli.namespace;
  agent_image = cli.agent_image;
  epoch_duration_sec = cli.epoch;
  llm_api_key = cli.llm_key;
  warm_pool_size = cli.warm_pool_size;
  controller_port = cli.port;
  state_endpoint = lit "/state/ingest";
}

-- ===== src/Commands.antt =====
-- src/cli.rs, the subcommands, and what `execute_subcommand` in src/main.rs needs of the world: the
-- daemon's HTTP interface through `reqwest`, the files, `kubectl`, and the texts that other crates make.
-- `F` is `f64`.
pub mod Console
pub mod Facts
pub mod History
pub mod Vectors
pub mod Pods
pub mod Execute
pub mod ReadOnly
pub mod Request
pub mod Agreement
pub mod Offline
pub mod Overwritten
use researcher_agent_kube_en.Base.{ℕ, Bool, List, Option, Result, Text}
use researcher_agent_kube_en.Platform.{Files, Json, Timestamp}
use researcher_agent_kube_en.FactGraph.{FactGraph, FactGraphError, FactNode, VerificationAttempt}
use researcher_agent_kube_en.Ledger.{Ledger, LedgerEntry, LedgerError}
use researcher_agent_kube_en.Api.{AddGroundVectorRequest}

-- `Commands`
pub data Subcommand (F : Type 0) : Type 0 where
  run : Subcommand F
  query_facts : (tag backend : Option Text) (epoch : Option ℕ) → Subcommand F
  list_history : (backend status : Option Text) (epoch : Option ℕ) → Subcommand F
  search : (hash : Text) → Subcommand F
  list_vectors : Subcommand F
  add_vector : (label content : Text) (weight : F) (policy : Text) → Subcommand F
  neutralize : (id : Text) → Subcommand F
  help_guide : Subcommand F
  pod_status : Subcommand F
  -- The tail is an `i64`, as it is printed.
  pod_logs : (pod_name : Option Text) (tail : Text) → Subcommand F

-- `reqwest::Client`, over the world of the files.
pub record Client (F World : Type 0) : Type 1 where
  pub HttpError : Type 0
  pub Response : Type 0
  -- `Client::builder().timeout(…).build()`
  pub build : Result (Unit {0}) HttpError
  pub get : (url : Text) → World → Result Response HttpError × World
  pub post : (url : Text) → World → Result Response HttpError × World
  pub post_json :
      (url : Text) → AddGroundVectorRequest F → World → Result Response HttpError × World
  -- `status().is_success()`, and the text that `json` decodes.
  pub is_success : Response → Bool
  pub body : Response → Result Text HttpError

pub record Surroundings (F : Type 0) : Type 1 where
  pub fs : Files
  pub client : Client F fs.World
  pub graph : Json FactGraph
  pub ledger : Json (Ledger F)
  pub facts : Json (List FactNode)
  pub attempts : Json (List VerificationAttempt)
  pub entries : Json (List (LedgerEntry F))
  -- `serde_json::Value`, and the print of a field of it.
  pub Value : Type 0
  pub value : Json Value
  pub field : Value → Text → Text
  -- `format("%Y-%m-%d %H:%M:%S")`, `{:.2}` and `{:?}`.
  pub show_time : Timestamp → Text
  pub show_weight : F → Text
  pub show_tags : List Text → Text
  -- `Command::new("kubectl").args(…).output()?` and `from_utf8_lossy` of its standard output.
  pub kubectl : List Text → fs.World → Result Text fs.IoError × fs.World

-- What `?` turns into an `anyhow::Error`.
pub data CliError (Http HttpJson Io Graph Steering : Type 0) : Type 0 where
  http : Http → CliError Http HttpJson Io Graph Steering
  json : HttpJson → CliError Http HttpJson Io Graph Steering
  process : Io → CliError Http HttpJson Io Graph Steering
  fact_graph : FactGraphError Io Graph → CliError Http HttpJson Io Graph Steering
  ledger : LedgerError Io Steering → CliError Http HttpJson Io Graph Steering

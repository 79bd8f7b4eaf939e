-- ===== src/Examples/CommandLine.antt =====
-- The client on a disk with a graph and a ledger, with a daemon that answers and without one.
use researcher_agent_kube_en.Base.{
  ◌≡◌, refl, ap, false, true, [], ◌∷◌, Option, none, some, Result, ok, err, Text, lit, Map, ℕ,
  arith, text_eq, retain, if◌then◌else◌,
}
use researcher_agent_kube_en.Base.Decimal.{decimal, value, value-decimal}
use researcher_agent_kube_en.Base.Maps.{lookup, contains_key}
use researcher_agent_kube_en.Platform.{Json}
use researcher_agent_kube_en.Config.{Cli}
use researcher_agent_kube_en.FactGraph.{FactGraph, VerificationAttempt, load_fact_graph}
use researcher_agent_kube_en.Ledger.{Ledger, add_entry, next_epoch, load_ledger, save_ledger}
use researcher_agent_kube_en.Api.{AppState}
use researcher_agent_kube_en.Api.History as Handler
use researcher_agent_kube_en.Api.Vectors.{policy_of}
use researcher_agent_kube_en.Commands.Console.{decode}
use researcher_agent_kube_en.Commands.{Surroundings, Subcommand, Client}
use researcher_agent_kube_en.Commands.History.{list_history}
use researcher_agent_kube_en.Commands.Vectors.{add_vector}
use researcher_agent_kube_en.Commands.Execute.{execute_subcommand}
use researcher_agent_kube_en.Commands.ReadOnly.{execute_subcommand_reads}
use researcher_agent_kube_en.Commands.Agreement.{SameLines, list_history-agrees}
use researcher_agent_kube_en.Commands.Offline.{add_vector-file}
use researcher_agent_kube_en.Examples.{disk, disk-IsReadBack, json_of}
use researcher_agent_kube_en.Examples.Signing.{served}
use researcher_agent_kube_en.Examples.Stores.{graph, ledger}

abbrev attempt : VerificationAttempt
attempt = record {
  id = lit "t1";
  payload = lit "1 = 2";
  payload_hash = lit "h1";
  backend = lit "z3";
  success = false;
  stdout = lit "sat";
  stderr = [];
  tactic_goals = [];
  error_message = none;
  submitted_at = 7;
  epoch = 1;
  tags = [];
}

abbrev logged : FactGraph
logged = record graph { attempts = attempt ∷ [] }

abbrev state : AppState Text ℕ
state = record served { fact_graph = logged }

-- A daemon runs where the disk has its answer; it answers everything with that.
abbrev answer : Option Text → Result Text (Unit {0})
answer none = err tt
answer (some body) = ok body

abbrev client : Client ℕ (Map Text)
client = record {
  HttpError = Unit;
  Response = Text;
  build = ok tt;
  get = λ url w. (answer (lookup (lit "daemon") w), w);
  post = λ url w. (answer (lookup (lit "daemon") w), w);
  post_json = λ url body w. (answer (lookup (lit "daemon") w), w);
  is_success = λ r. true;
  body = λ r. ok r;
}

abbrev pub cli : Cli ℕ
cli = record {
  epoch = 60;
  llm_key = [];
  ground_vectors = [];
  namespace = lit "raket";
  agent_image = lit "agent";
  warm_pool_size = 2;
  port = 8080;
  fact_graph_path = lit "facts.json";
  ledger_path = lit "ledger.json";
  verify_timeout_sec = 30;
  verify_work_dir = lit "/tmp";
  alignment_objective = [];
  alignment_threshold = 0;
}

-- The surroundings, by the JSON of the ledger.
abbrev pub env_of : Json (Ledger ℕ) → Surroundings ℕ
env_of ledger_json = record {
  fs = disk;
  client = client;
  graph = json_of (lit "{graph}") (record logged { path = [] });
  ledger = ledger_json;
  facts = json_of (lit "[facts]") [];
  attempts = json_of (lit "[attempts]") (attempt ∷ []);
  entries = json_of (lit "[entries]") [];
  Value = Text;
  value = json_of (lit "{value}") (lit "v");
  field = λ v name. name;
  show_time = λ t. decimal t;
  show_weight = λ w. decimal w;
  show_tags = λ ts. lit "[]";
  kubectl = λ args w. (ok (lit "w1"), w);
}

-- A JSON that knows two ledgers, each by a text of its own.
abbrev pub before : Ledger ℕ
before = record ledger { path = [] }

abbrev pub two_ledgers : Ledger ℕ → Json (Ledger ℕ)
two_ledgers after = record {
  SerdeError = Unit;
  serde_text = λ e. lit "no JSON";
  to_string = λ l. ok (lit "{after}");
  from_str = λ s.
      if text_eq s (lit "{before}")
      then ok before
      else (if text_eq s (lit "{after}") then ok (record after { path = [] }) else err tt);
}

abbrev pub files : Map Text
files = (lit "facts.json", lit "{graph}") ∷ (lit "ledger.json", lit "{before}") ∷ []

abbrev online : Map Text
online = (lit "daemon", lit "[attempts]") ∷ files

abbrev env : Surroundings ℕ
env = env_of (two_ledgers before)

-- A parser of digits.
abbrev read_u64 : Text → Option ℕ
read_u64 s = some (value 0 s)

list_history-agrees_example :
    SameLines env
      (list_history env cli (some (lit "z3")) (some (lit "failed")) (some 1) (online, []))
      (list_history env cli (some (lit "z3")) (some (lit "failed")) (some 1) (files, []))
unfolding lookup lit load_fact_graph contains_key text_eq decode decimal Handler.list_history retain
list_history-agrees_example =
    list_history-agrees env cli state online files [] read_u64 (some (lit "z3"))
      (some (lit "failed")) (some 1) (refl, (refl, tt))
      (refl, (refl, (refl, (refl, (refl, (refl, tt)))))) (omega arith)
      (λ n small. ap some (value-decimal n small)) (λ plain. refl) refl refl

execute_subcommand_reads_example :
    (execute_subcommand env cli (lit "v9") 5 (Subcommand.search (lit "h1")) (files, [])).1.0 ≡ files
execute_subcommand_reads_example =
    execute_subcommand_reads env (λ w. w ≡ files)
      (record { by_get = λ url w h. h; by_kubectl = λ args w h. h }) cli (lit "v9") 5
      (Subcommand.search (lit "h1")) files [] tt refl

-- What an addition makes of the ledger.
abbrev pub with_new : Ledger ℕ
with_new = (add_entry ledger (lit "new") (lit "topic") 500 next_epoch (lit "e3") 4).0

abbrev env_added : Surroundings ℕ
env_added = env_of (two_ledgers with_new)

add_vector-file_example :
    let (r, (w', out')) =
      add_vector env_added cli
        (lit "new")
        (lit "topic")
        500
        (lit "next_epoch")
        (lit "e3")
        4
        (files, []) in
    (r ≡ ok tt) × (load_ledger disk env_added.ledger (lit "ledger.json") w' ≡ ok with_new)
unfolding lookup lit load_ledger save_ledger contains_key text_eq policy_of add_entry
add_vector-file_example =
    add_vector-file env_added cli (lit "new") (lit "topic") 500 (lit "next_epoch") (lit "e3") 4
      files [] ledger (lit "{after}") refl refl disk-IsReadBack (λ e. ground arith) refl refl refl

-- ===== src/Daemon/Startup.antt =====
-- src/main.rs, `main`, up to the tasks: the ledger with the ground vectors of the command line, the
-- graph of facts, the two states, and the warm-up of the pool.
pub mod Steering
pub mod WarmUp
pub mod FirstRounds
use researcher_agent_kube_en.Base.{
  ℕ, zero, suc, ◌+◌, Bool, not, List, [], ◌∷◌, ◌++◌, Option, none, some, Result, ok, err, Text, lit,
  text_eq, if◌then◌else◌, unwrap_or, head?, get_elem?,
}
use researcher_agent_kube_en.Base.Steps.{Step, ◌>>=◌, ◌>>◌, pure}
use researcher_agent_kube_en.Base.Strings.{splitn}
use researcher_agent_kube_en.Base.Decimal.{decimal}
use researcher_agent_kube_en.Platform.{Digest, Files, Json, Timestamp}
use researcher_agent_kube_en.Platform.Float.{Float}
use researcher_agent_kube_en.Config.{Cli, from_cli}
use researcher_agent_kube_en.State.{AgentState}
use researcher_agent_kube_en.FactGraph.{FactGraph, FactGraphError, load_fact_graph}
use researcher_agent_kube_en.Ledger.{
  Ledger, LedgerError, RotationPolicy, immediate, next_epoch, add_entry, load_ledger, save_ledger,
}
use researcher_agent_kube_en.Verify
use researcher_agent_kube_en.Controller.{ControllerState, Kube}
use researcher_agent_kube_en.Controller.Rotation.{World, first_part, provision_warm_pod}
use researcher_agent_kube_en.Daemon.{Daemon, start}

-- A ground vector of the command line.
pub record Steer (F : Type 0) : Type 0 where
  pub label : Text
  pub content : Text
  pub weight : F
  pub policy : RotationPolicy

abbrev pub parsed_weight : (fl : Float) → Option Text → fl.F64
parsed_weight fl none = fl.one
parsed_weight fl (some w) = unwrap_or (fl.parse w) fl.one

abbrev pub parsed_policy : Option Text → RotationPolicy
parsed_policy none = next_epoch
parsed_policy (some p) = if text_eq p (lit "immediate") then immediate else next_epoch

unfoldable pub parse_ground_vector : (fl : Float) → Text → Steer fl.F64
parse_ground_vector fl raw =
    let parts = splitn 4 b':' raw in
    record {
      label = unwrap_or (head? parts) (lit "cli-vector");
      content = unwrap_or (get_elem? parts 1) [];
      weight = parsed_weight fl (get_elem? parts 2);
      policy = parsed_policy (get_elem? parts 3);
    }

-- A text of the command line, with the identifier and the time that its entry draws.
pub record Raw : Type 0 where
  pub text : Text
  pub id : Text
  pub now : Timestamp

-- The body of the loop over the ground vectors, and the loop.
unfoldable pub add_raw : (fl : Float) → Ledger fl.F64 → Raw → Ledger fl.F64
unfolding parse_ground_vector
add_raw fl l raw =
    let v = parse_ground_vector fl raw.text in
    (add_entry l v.label v.content v.weight v.policy raw.id raw.now).0

unfoldable pub add_ground_vectors : (fl : Float) → Ledger fl.F64 → List Raw → Ledger fl.F64
unfolding add_raw
add_ground_vectors fl l [] = l
add_ground_vectors fl l (raw ∷ raws) = add_ground_vectors fl (add_raw fl l raw) raws

pub data BootError (Io Graph Steering Kube : Type 0) : Type 0 where
  io : Io → BootError Io Graph Steering Kube
  fact_graph : FactGraphError Io Graph → BootError Io Graph Steering Kube
  ledger : LedgerError Io Steering → BootError Io Graph Steering Kube
  kube : Kube → BootError Io Graph Steering Kube

module _ (fl : Float) (fs : Files) (graph : Json FactGraph) (steering : Json (Ledger fl.F64)) where
  -- `if !cli.ground_vectors.is_empty() { save_ledger(&l).await?; }`
  unfoldable pub save_if_added :
      List Raw
      → Ledger fl.F64
      → Step fs.World (LedgerError fs.IoError steering.SerdeError) (Unit {0})
  save_if_added [] l = pure (ok tt)
  save_if_added (raw ∷ raws) l = save_ledger fs steering l

  unfoldable pub start_ledger :
      Text → List Raw → Step fs.World (LedgerError fs.IoError steering.SerdeError) (Ledger fl.F64)
  unfolding save_if_added add_ground_vectors ◌>>=◌ pure
  start_ledger path raws = do
    loaded ← λ w. (load_ledger fs steering path w, w)
    save_if_added raws (add_ground_vectors fl loaded raws)
    pure (ok (add_ground_vectors fl loaded raws))

  module _ (KubeError : Type 0) where
    abbrev pub Error : Type 0
    Error = BootError fs.IoError graph.SerdeError steering.SerdeError KubeError

    -- A call with an error of its own.
    abbrev pub wrapped : {A E : Type 0} → (E → Error) → Step fs.World E A → Step fs.World Error A
    wrapped wrap m w =
        let (r, w') = m w in elim r [ ok a ↦ (ok a, w') | err e ↦ (err (wrap e), w') ]

    -- From the command line to the two states. `create_dir_all` is that of `tokio::fs`, `var` the
    -- environment, and `connected` what `Client::try_default` gives `Controller::new`.
    unfoldable pub boot :
        {V : Type 0} (create_dir_all : Text → Step fs.World fs.IoError (Unit {0}))
        (var : Text → Option Text) (connected : Result (Unit {0}) KubeError)
        → Cli fl.F64
        → List Raw
        → Step fs.World Error (Daemon V fl.F64)
    unfolding start_ledger start ◌>>=◌ pure
    boot {V} create_dir_all var connected cli raws = do
      wrapped io (create_dir_all cli.verify_work_dir)
      l ← wrapped ledger (start_ledger cli.ledger_path raws)
      g ← wrapped fact_graph (λ w. (load_fact_graph fs graph cli.fact_graph_path w, w))
      wrapped kube (pure connected)
      pure (
          ok (start (from_cli cli) (Verify.new var cli.verify_work_dir cli.verify_timeout_sec) g l))

-- `format!("raket-warm-{}-{}", i, …)`
unfoldable pub warm_name : ℕ → Text → Text
warm_name i uuid = lit "raket-warm-" ++ (decimal i ++ b'-' ∷ first_part uuid)

module _ {V : Type 0} (d : Digest) (k : Kube) (js : Json (AgentState V)) where
  -- The rounds of the warm-up from `i` on: `draw` gives the UUIDs, and `during` is what other tasks do
  -- to the state while the cluster creates a pod. An error is logged and the loop goes on.
  unfoldable pub warm_up_from :
      (draw : ℕ → Text) (during : ℕ → ControllerState V → ControllerState V)
      → (count i : ℕ) → World d k js
      → World d k js
  unfolding warm_name
  warm_up_from draw during zero i w = w
  warm_up_from draw during (suc n) i w =
      warm_up_from draw during n (i + 1)
        (provision_warm_pod d k js (during i) (warm_name i (draw i)) w).1

  -- The task, with the size of the pool as the state has it.
  unfoldable pub warm_up :
      (draw : ℕ → Text) (during : ℕ → ControllerState V → ControllerState V)
      → World d k js
      → World d k js
  unfolding warm_up_from
  warm_up draw during (s, c) = warm_up_from draw during s.config.warm_pool_size 0 (s, c)

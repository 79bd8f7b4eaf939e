-- ===== src/Examples/Pods.antt =====
-- Rotations on a cluster with an active pod and two warm ones.
use researcher_agent_kube_en.Base.{
  ◌≡◌, refl, ◌++◌, List, [], ◌∷◌, none, some, ok, Text, lit, arith, text_eq, any, retain, length,
  length-retain-le, ◌≤◌, not,
}
use researcher_agent_kube_en.Platform.{Json}
use researcher_agent_kube_en.Config.{Config}
use researcher_agent_kube_en.State.{AgentState, compute_signature, signed_text}
use researcher_agent_kube_en.Controller.{ControllerState}
use researcher_agent_kube_en.Controller.Manifest.{pod_with_env}
use researcher_agent_kube_en.Controller.Rotation.{
  first_part, delete_active, rotate_active_pod, without,
}
use researcher_agent_kube_en.Controller.Outcomes.{
  calm, rotate_active_pod-hands_over, replenish_name,
}
use researcher_agent_kube_en.Controller.Pool.{Rotates, rotate_active_pod-pool}
use researcher_agent_kube_en.Controller.EpochLoop.{
  Round, tick, triggered, run_epoch_loop, run_epoch_loop-blocked, run_epoch_loop-pool_bounded,
}
use researcher_agent_kube_en.Controller.Drained.{run_epoch_loop-drained}
use researcher_agent_kube_en.Controller.Queue.{IsUp, new_names, turn, run_epoch_loop-turn}
use researcher_agent_kube_en.Examples.{plain_digest, json_of, named_pods, obedient_pods}
use researcher_agent_kube_en.Examples.Signing.{key, named, signed}

abbrev pub config : Config
config = record {
  target_namespace = lit "raket";
  agent_image = lit "agent";
  epoch_duration_sec = 60;
  llm_api_key = key;
  warm_pool_size = 2;
  controller_port = 8080;
  state_endpoint = lit "/state/ingest";
}

abbrev pub idle : ControllerState Text
idle = record {
  config = config;
  pending_state = none;
  active_pod_name = some (lit "a0");
  warm_pod_names = lit "w1" ∷ lit "w2" ∷ [];
}

abbrev waiting : AgentState Text → ControllerState Text
waiting s = record idle { pending_state = some s }

abbrev pub good : AgentState Text
good = signed (lit "a1") (lit "p1")

-- A state without a signature.
abbrev pub bad : AgentState Text
bad = named (lit "a1") (lit "p1")

abbrev pub state_json : Json (AgentState Text)
state_json = json_of (lit "{state}") bad

abbrev pub pods : List Text
pods = lit "a0" ∷ lit "w1" ∷ lit "w2" ∷ []

abbrev warm_pods : List Text
warm_pods = lit "w1" ∷ lit "w2" ∷ []

good_signed : good.signature ≡ compute_signature plain_digest good key
unfolding compute_signature signed_text
good_signed = refl

rotate_active_pod-hands_over_example :
    rotate_active_pod plain_digest named_pods state_json calm
      (lit "u1-x")
      (lit "u2-x")
      (waiting good, pods)
    ≡ (
      ok tt,
      (
        record idle {
          active_pod_name = some (lit "raket-agent-" ++ first_part (lit "u1-x"));
          warm_pod_names =
              without plain_digest named_pods state_json (lit "w1") warm_pods
              ++ replenish_name plain_digest named_pods state_json (lit "u2-x") ∷ [];
        },
        (warm_pods ++ (lit "raket-agent-" ++ first_part (lit "u1-x")) ∷ [])
            ++ (lit "raket-warm-" ++ first_part (lit "u2-x")) ∷ [],
      ),
    )
unfolding delete_active pod_with_env lit any retain text_eq
rotate_active_pod-hands_over_example =
    rotate_active_pod-hands_over plain_digest named_pods state_json (lit "u1-x") (lit "u2-x")
      (lit "w1") (lit "{state}") (waiting good) pods warm_pods _ _ good refl refl good_signed refl
      refl refl refl

rotate_active_pod-pool_example :
    Rotates plain_digest named_pods state_json
      (lit "w1")
      (lit "w2" ∷ [])
      (replenish_name plain_digest named_pods state_json (lit "u2-x"))
      (rotate_active_pod plain_digest named_pods state_json calm
        (lit "u1-x")
        (lit "u2-x")
        (waiting good, pods))
unfolding lit
rotate_active_pod-pool_example =
    rotate_active_pod-pool plain_digest named_pods state_json (lit "u1-x") (lit "u2-x") (lit "w1")
      (lit "w2" ∷ []) (waiting good) pods refl (λ e. ground arith, tt)

-- Two rounds that nothing disturbs.
abbrev pub rounds : List (Round Text)
rounds =
    record {
      wakeup = tick;
      uuid = lit "u1-x";
      replenish_uuid = lit "u2-x";
      before = λ s. s;
      others = calm;
    }
    ∷ record {
      wakeup = triggered;
      uuid = lit "u3-x";
      replenish_uuid = lit "u4-x";
      before = λ s. s;
      others = calm;
    }
    ∷ []

-- What no deletion breaks: that there are at most three pods.
delete_shrinks :
    (name : Text) (c : List Text)
    → length c ≤ 3
    → length (named_pods.delete (lit "raket") name c).1 ≤ 3
delete_shrinks name c h = ground (arith, length-retain-le (λ p. not (text_eq p name)) c)

run_epoch_loop-blocked_example :
    ((run_epoch_loop plain_digest named_pods state_json rounds (waiting bad, pods)).0 ≡ waiting bad)
    × (length (run_epoch_loop plain_digest named_pods state_json rounds (waiting bad, pods)).1 ≤ 3)
unfolding compute_signature signed_text lit
run_epoch_loop-blocked_example =
    run_epoch_loop-blocked plain_digest named_pods state_json (λ c. length c ≤ 3) rounds (lit "w1")
      (waiting bad) pods bad ((refl, refl), ((refl, refl), tt)) refl refl (λ e. ground arith)
      (λ namespace name c h. delete_shrinks name c h) (omega arith)

run_epoch_loop-pool_bounded_example :
    length
      (run_epoch_loop plain_digest named_pods state_json rounds
        (waiting good, pods)).0.warm_pod_names
    ≤ 2
run_epoch_loop-pool_bounded_example =
    run_epoch_loop-pool_bounded plain_digest named_pods state_json rounds (waiting good) pods
      ((refl, refl), ((refl, refl), tt))

pub obedient_pods-IsUp : IsUp obedient_pods
obedient_pods-IsUp = record {
  creates = λ namespace p c. refl;
  deletes = λ namespace name c. refl;
  patches = λ namespace name labels c. refl;
}

run_epoch_loop-turn_example :
    let (pool, active) = turn warm_pods (new_names rounds) (some (lit "a0")) in
    (run_epoch_loop plain_digest obedient_pods state_json rounds (idle, pods)).0
    ≡ record idle { active_pod_name = active; warm_pod_names = pool }
unfolding lit first_part
run_epoch_loop-turn_example =
    run_epoch_loop-turn plain_digest obedient_pods state_json obedient_pods-IsUp rounds idle pods
      ((refl, refl), ((refl, refl), tt)) refl (λ e. ground arith)
      (
        (λ e. ground arith, (λ e. ground arith, (λ e. ground arith, tt))),
        ((λ e. ground arith, (λ e. ground arith, tt)), ((λ e. ground arith, tt), (tt, tt))),
      )

run_epoch_loop-drained_example :
    let (s', c') =
      run_epoch_loop plain_digest named_pods state_json rounds
        (record idle { warm_pod_names = [] }, pods) in
    (s'.warm_pod_names ≡ []) × (c' ≡ pods)
run_epoch_loop-drained_example =
    run_epoch_loop-drained plain_digest named_pods state_json rounds
      (record idle { warm_pod_names = [] }) pods (λ s e. e, (λ s e. e, tt)) refl

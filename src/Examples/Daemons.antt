-- ===== src/Examples/Daemons.antt =====
-- A daemon that takes a state in and then rotates.
use researcher_agent_kube_en.Base.{◌≡◌, none, [], ◌∷◌, Text, lit, ℕ}
use researcher_agent_kube_en.Api.Ingest.{ingest_state}
use researcher_agent_kube_en.Controller.Rotation.{rotate_active_pod, provision_warm_pod}
use researcher_agent_kube_en.Controller.Outcomes.{calm}
use researcher_agent_kube_en.Daemon.{Daemon, start}
use researcher_agent_kube_en.Daemon.Handover.{
  Steps, ingest, rotate, warm_up, done, more, ingested_never_handed_over,
}
use researcher_agent_kube_en.Base.{refl, some, text_eq, ok, ◌++◌, map, length, arith}
use mathlib.Core.List.{Perm}
use researcher_agent_kube_en.Base.Maps.{lookup, contains_key}
use researcher_agent_kube_en.Controller.{new}
use researcher_agent_kube_en.Controller.Queue.{AllDistinct}
use researcher_agent_kube_en.Ledger.{
  Ledger, immediate, add_entry, load_ledger, save_ledger, active_ground_vectors,
}
use researcher_agent_kube_en.Daemon.Startup.{
  Raw, parse_ground_vector, add_ground_vectors, start_ledger,
}
use researcher_agent_kube_en.Daemon.Startup as Startup
use researcher_agent_kube_en.Daemon.Startup.Steering.{
  typed, steering_vector, parse_ground_vector-typed, add_ground_vectors-active, start_ledger-saves,
}
use researcher_agent_kube_en.Daemon.Startup.FirstRounds.{warm_pods_take_turns}
use researcher_agent_kube_en.Controller.EpochLoop.{tick, triggered, run_epoch_loop}
use researcher_agent_kube_en.Controller.Rotation.{first_part}
use researcher_agent_kube_en.Controller.Manifest.{build_agent_pod_manifest}
use researcher_agent_kube_en.Base.Decimal.{decimal}
use researcher_agent_kube_en.Daemon.Startup.WarmUp.{warm_up_fills}
use researcher_agent_kube_en.Examples.{
  plain_digest, named_pods, obedient_pods, spoken, disk, disk-IsReadBack,
}
use researcher_agent_kube_en.Examples.Stores.{ledger, graph_json}
use researcher_agent_kube_en.Examples.CommandLine.{two_ledgers, files}
use researcher_agent_kube_en.Examples.Signing.{served}
use researcher_agent_kube_en.Examples.Pods.{config, good, state_json, rounds, obedient_pods-IsUp}

abbrev started : Daemon Text ℕ
started = start config served.verification_engine served.fact_graph served.ledger

abbrev warmed : Daemon Text ℕ
warmed = record started {
  ctrl =
      (provision_warm_pod plain_digest named_pods state_json (λ s. s) (lit "w1")
        (started.ctrl, [])).1.0;
}

-- A state with a right signature is accepted.
abbrev ingested : Daemon Text ℕ
ingested = record warmed { app = (ingest_state plain_digest warmed.app good).1 }

abbrev rotated : Daemon Text ℕ
rotated = record ingested {
  ctrl =
      (rotate_active_pod plain_digest named_pods state_json calm (lit "u1-x") (lit "u2-x")
        (ingested.ctrl, lit "w1" ∷ [])).1.0;
}

run : Steps plain_digest named_pods state_json started rotated
run =
    more started ingested rotated
      (more started warmed ingested
        (more started started warmed (done started)
          (warm_up started (λ s. s) (lit "w1") [] (λ s e. e)))
        (ingest warmed good))
      (rotate ingested calm (lit "u1-x") (lit "u2-x") (lit "w1" ∷ [])
        (record { on_delete = λ s e. e; on_promote = λ s e. e; on_provision = λ s e. e }))

ingested_never_handed_over_example : rotated.ctrl.pending_state ≡ none
ingested_never_handed_over_example =
    ingested_never_handed_over plain_digest named_pods state_json config served.verification_engine
      served.fact_graph served.ledger rotated run

parse_ground_vector-typed_example :
    parse_ground_vector spoken (typed spoken (lit "l") (lit "c d") 700 (lit "immediate"))
    ≡ record { label = lit "l"; content = lit "c d"; weight = 700; policy = immediate }
unfolding lit text_eq
parse_ground_vector-typed_example =
    parse_ground_vector-typed spoken (lit "l") (lit "c d") (lit "immediate") 700
      (λ e. ground arith, tt) (λ e. ground arith, (λ e. ground arith, (λ e. ground arith, tt)))
      (λ e. ground arith, tt) refl

abbrev pub raw : Raw
raw = record { text = lit "l:c d"; id = lit "e3"; now = 4 }

add_ground_vectors-active_example :
    Perm (active_ground_vectors spoken plain_digest (add_ground_vectors spoken ledger (raw ∷ []))) (
      map (steering_vector spoken plain_digest) (raw ∷ [])
      ++ active_ground_vectors spoken plain_digest ledger)
unfolding lookup lit text_eq
add_ground_vectors-active_example =
    add_ground_vectors-active spoken plain_digest (raw ∷ []) ledger (refl, tt)

abbrev steered : Ledger ℕ
steered = add_ground_vectors spoken ledger (raw ∷ [])

start_ledger-saves_example :
    let (r, w') =
      start_ledger spoken disk graph_json
        (two_ledgers steered)
        (lit "ledger.json")
        (raw ∷ [])
        files in
    (r ≡ ok steered) × (load_ledger disk (two_ledgers steered) (lit "ledger.json") w' ≡ ok steered)
unfolding lookup lit load_ledger save_ledger text_eq contains_key add_ground_vectors add_entry
start_ledger-saves_example =
    start_ledger-saves spoken disk graph_json (two_ledgers steered) (lit "ledger.json")
      (lit "{after}") raw [] ledger files refl (λ e. ground arith) disk-IsReadBack refl refl refl

warm_up_fills_example :
    let s =
      (Startup.warm_up plain_digest obedient_pods state_json
        (λ i. lit "u-v")
        (λ j s. s)
        (new config, [])).0 in
    (length s.warm_pod_names ≡ 2)
    × AllDistinct s.warm_pod_names
    × (s ≡ record (new config) { warm_pod_names = s.warm_pod_names })
warm_up_fills_example =
    warm_up_fills plain_digest obedient_pods state_json (λ i. lit "u-v") config []
      (λ namespace p c. refl) (omega arith)

warm_pods_take_turns_example :
    let (s, c1) =
      Startup.warm_up plain_digest obedient_pods state_json
        (λ i. lit "u-v")
        (λ j s. s)
        (new config, []) in
    (run_epoch_loop plain_digest obedient_pods state_json rounds (s, c1)).0.active_pod_name
    ≡ some (Startup.warm_name 1 (lit "u-v"))
unfolding lit first_part Startup.warm_up Startup.warm_name provision_warm_pod new
    build_agent_pod_manifest decimal
warm_pods_take_turns_example =
    warm_pods_take_turns plain_digest obedient_pods state_json obedient_pods-IsUp (λ i. lit "u-v")
      config []
      (record {
        wakeup = tick;
        uuid = lit "u1-x";
        replenish_uuid = lit "u2-x";
        before = λ s. s;
        others = calm;
      })
      (record {
        wakeup = triggered;
        uuid = lit "u3-x";
        replenish_uuid = lit "u4-x";
        before = λ s. s;
        others = calm;
      }
        ∷ [])
      (omega arith) ((refl, refl), ((refl, refl), tt))
      (
        (λ e. ground arith, (λ e. ground arith, (λ e. ground arith, tt))),
        ((λ e. ground arith, (λ e. ground arith, tt)), ((λ e. ground arith, tt), (tt, tt))),
      )

-- ===== src/Controller/Drained.antt =====
-- src/controller.rs, `run_epoch_loop` with an empty pool.
use researcher_agent_kube_en.Base.{◌≡◌, refl, ap, sym, subst, List, [], ◌∷◌}
use researcher_agent_kube_en.Platform.{Digest, Json}
use researcher_agent_kube_en.State.{AgentState}
use researcher_agent_kube_en.Controller.{ControllerState, Kube}
use researcher_agent_kube_en.Controller.Outcomes.{rotate_active_pod-exhausted}
use researcher_agent_kube_en.Controller.EpochLoop.{Round, run_round, run_epoch_loop}

-- While the loop waits, no other task puts a pod into an empty pool; whatever else it changes.
abbrev pub NoneJoins : {V : Type 0} → List (Round V) → Type 0
NoneJoins [] = Unit
NoneJoins {V = V} (r ∷ rs) =
    ((s : ControllerState V) → s.warm_pod_names ≡ [] → (r.before s).warm_pod_names ≡ [])
    × NoneJoins rs

module _ {V : Type 0} (d : Digest) (kube : Kube) (js : Json (AgentState V)) where
  run_round-drained :
      (r : Round V) (s : ControllerState V) (c : kube.Cluster)
      → (r.before s).warm_pod_names ≡ []
      → run_round d kube js r (s, c) ≡ (r.before s, c)
  unfolding run_round
  run_round-drained r s c empty =
      ap (λ x. x.1)
        (rotate_active_pod-exhausted d kube js r.others r.uuid r.replenish_uuid (r.before s) c
          empty)

  -- The loop by itself does not recover from an empty pool: whatever wakes it, however often, it neither
  -- touches the cluster nor adds a pod, as long as no other task, such as the warm-up, puts one into
  -- the empty pool while the loop waits. Other changes of the state do not help it.
  pub run_epoch_loop-drained :
      (rounds : List (Round V)) (s : ControllerState V) (c : kube.Cluster)
      → NoneJoins rounds
      → s.warm_pod_names ≡ []
      → let (s', c') = run_epoch_loop d kube js rounds (s, c) in (s'.warm_pod_names ≡ []) × (c' ≡ c)
  unfolding run_epoch_loop
  run_epoch_loop-drained [] s c none_joins empty = (empty, refl)
  run_epoch_loop-drained (r ∷ rounds) s c none_joins empty =
      let still = none_joins.0 s empty in
      subst
        (λ w.
          let (s', c') = run_epoch_loop d kube js rounds w in (s'.warm_pod_names ≡ []) × (c' ≡ c))
        (sym (run_round-drained r s c still))
        (run_epoch_loop-drained rounds (r.before s) c none_joins.1 still)

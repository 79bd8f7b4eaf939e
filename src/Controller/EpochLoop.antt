-- ===== src/Controller/EpochLoop.antt =====
-- src/controller.rs, `run_epoch_loop`: a rotation each time the timer or the trigger wakes the loop. The
-- error of a rotation is logged and the loop goes on. The clock is not modelled: the loop is a list of
-- its rounds. The lock is free while the loop waits to be woken: what other tasks do to the state until
-- then is an argument of each round, as is what they do while the rotation waits.
use researcher_agent_kube_en.Base.{
  ◌≡◌, refl, sym, subst, ◌≢◌, ◌+◌, ◌≤◌, List, [], ◌∷◌, Option, none, some, Text, head?, retain,
  arith, length, length-append, length-retain-le, text_eq_refl, inl, inr, Result-cases,
  Option-cases, not, text_eq, ℕ, pair_eq,
}
use researcher_agent_kube_en.Platform.{Digest, Json}
use researcher_agent_kube_en.State.{AgentState, compute_signature}
use researcher_agent_kube_en.Config.{Config}
use researcher_agent_kube_en.Controller.{ControllerState, Kube}
use researcher_agent_kube_en.Controller.Rotation.{
  Others, World, rotate_active_pod, delete_active, promote, promote_warm, promote_state,
  finish_rotation, provision_warm_pod, without, promote_patch,
}
use researcher_agent_kube_en.Controller.Outcomes.{
  calm, replenish_name, rotate_active_pod-unverified,
}
use researcher_agent_kube_en.Controller.Pool.{delete_active-keeps, promote_state-keeps}

-- What wakes the loop: the end of an epoch, or `Notify`.
pub data Wakeup : Type 0 where
  tick triggered : Wakeup

-- A round: what wakes the loop, what other tasks do until then, the UUIDs that the rotation draws, and
-- what other tasks do during it.
pub record Round (V : Type 0) : Type 0 where
  pub wakeup : Wakeup
  pub before : ControllerState V → ControllerState V
  pub uuid : Text
  pub replenish_uuid : Text
  pub others : Others V

-- No other task touches the state, neither while the loop waits nor during the rotation.
abbrev pub IsCalm : {V : Type 0} → Round V → Type 0
IsCalm r = (r.before ≡ λ s. s) × (r.others ≡ calm)

abbrev pub AllCalm : {V : Type 0} → List (Round V) → Type 0
AllCalm [] = Unit
AllCalm (r ∷ rs) = IsCalm r × AllCalm rs

module _ {V : Type 0} (d : Digest) (kube : Kube) (js : Json (AgentState V)) where
  -- The body of the loop.
  unfoldable pub run_round : Round V → World d kube js → World d kube js
  run_round r (s, c) =
      (rotate_active_pod d kube js r.others r.uuid r.replenish_uuid (r.before s, c)).1

  unfoldable pub run_epoch_loop : List (Round V) → World d kube js → World d kube js
  run_epoch_loop [] w = w
  run_epoch_loop (r ∷ rs) w = run_epoch_loop rs (run_round r w)

  pub run_round-calm :
      (r : Round V) (s : ControllerState V) (c : kube.Cluster)
      → IsCalm r
      → run_round r (s, c) ≡ (rotate_active_pod d kube js calm r.uuid r.replenish_uuid (s, c)).1
  unfolding run_round
  run_round-calm r s c quiet = rw (quiet.0, quiet.1)

  delete_active-cluster :
      (config : Config) (a : Text) (s : ControllerState V) (c : kube.Cluster)
      → (delete_active d kube js config (some a) (s, c)).1.1
        ≡ (kube.delete config.target_namespace a c).1
  unfolding delete_active
  delete_active-cluster config a s c = ground arith

  -- What no deletion breaks survives the deletion of the active pod.
  delete_active-invariant :
      (P : kube.Cluster → Type 0) (config : Config) (active : Option Text) (s : ControllerState V)
      (c : kube.Cluster)
      → ((namespace name : Text) (c : kube.Cluster) → P c → P (kube.delete namespace name c).1)
      → P c
      → P (delete_active d kube js config active (s, c)).1.1
  unfolding delete_active
  delete_active-invariant P config none s c keeps p = p
  delete_active-invariant P config (some a) s c keeps p =
      subst P (sym (delete_active-cluster config a s c)) (keeps config.target_namespace a c p)

  -- A pending state with a wrong signature blocks the controller for good: after any number of
  -- rounds that no other task disturbs, neither before nor during the rotation, with a pod in the
  -- pool, its state is what it was, and the cluster has seen deletions only, so whatever no
  -- deletion breaks still holds of it.
  pub run_epoch_loop-blocked :
      (P : kube.Cluster → Type 0) (rounds : List (Round V)) (w : Text) (s : ControllerState V)
      (c : kube.Cluster) (captured : AgentState V)
      → AllCalm rounds
      → head? s.warm_pod_names ≡ some w
      → s.pending_state ≡ some captured
      → captured.signature ≢ compute_signature d captured s.config.llm_api_key
      → ((namespace name : Text) (c : kube.Cluster) → P c → P (kube.delete namespace name c).1)
      → P c
      → ((run_epoch_loop rounds (s, c)).0 ≡ s) × P (run_epoch_loop rounds (s, c)).1
  unfolding run_epoch_loop
  run_epoch_loop-blocked P [] w s c captured undisturbed first pending bad keeps p = (refl, p)
  run_epoch_loop-blocked P (r ∷ rs) w s c captured undisturbed first pending bad keeps p =
      let (state_eq, cluster_eq, _) =
        rotate_active_pod-unverified d kube js r.uuid r.replenish_uuid w s c captured first pending
          bad in
      let c1 = (delete_active d kube js s.config s.active_pod_name (s, c)).1.1 in
      let Blocked : World d kube js → Type 0 = λ w. (w.0 ≡ s) × P w.1 in
      subst (λ w. Blocked (run_epoch_loop rs w)) (sym (run_round-calm r s c undisturbed.0))
        (subst (λ w. Blocked (run_epoch_loop rs w)) (sym (pair_eq _ s _ c1 state_eq cluster_eq))
          (run_epoch_loop-blocked P rs w s c1 captured undisturbed.1 first pending bad keeps
            (delete_active-invariant P s.config s.active_pod_name s c keeps p)))

  -- The size of the pool.
  abbrev pool_size : World d kube js → ℕ
  pool_size (s, c) = length s.warm_pod_names

  provision_warm_pod-size :
      (name : Text) (w : World d kube js)
      → pool_size (provision_warm_pod d kube js (λ s. s) name w).1 ≤ pool_size w + 1
  unfolding provision_warm_pod
  provision_warm_pod-size name (s, c) = ground (arith, length-append s.warm_pod_names (name ∷ []))

  without_smaller :
      (w : Text) (ws : List Text)
      → head? ws ≡ some w
      → length (without d kube js w ws) + 1 ≤ length ws
  unfolding retain
  without_smaller w [] e = cc
  without_smaller w (x ∷ xs) e =
      let smaller = length-retain-le (λ p. not (text_eq p w)) xs in
      ground (arith, text_eq_refl w, smaller)

  finish_rotation-size :
      (w promoted name : Text) (s : ControllerState V) (c : kube.Cluster)
      → head? s.warm_pod_names ≡ some w
      → pool_size (finish_rotation d kube js calm w promoted name (s, c)).1 ≤ pool_size (s, c)
  unfolding finish_rotation
  finish_rotation-size w promoted name s c first =
      let s' : ControllerState V = record s {
        active_pod_name = some promoted;
        warm_pod_names = without d kube js w s.warm_pod_names;
        pending_state = none;
      } in
      omega (arith, provision_warm_pod-size name (s', c), without_smaller w s.warm_pod_names first)

  promote_warm-size :
      (config : Config) (w name : Text) (s : ControllerState V) (c : kube.Cluster)
      → head? s.warm_pod_names ≡ some w
      → pool_size (promote_warm d kube js calm config w name (s, c)).1 ≤ pool_size (s, c)
  unfolding promote_warm
  promote_warm-size config w name s c first =
      let c' = (kube.patch_labels config.target_namespace w promote_patch c).1 in
      ground (
        arith,
        finish_rotation-size w w name s c' first,
        provision_warm_pod-size name
            (record s { warm_pod_names = without d kube js w s.warm_pod_names }, c'),
        without_smaller w s.warm_pod_names first,
      )

  promote-size :
      (config : Config) (w uuid name : Text) (pending : Option (AgentState V))
      (s : ControllerState V) (c : kube.Cluster)
      → head? s.warm_pod_names ≡ some w
      → pool_size (promote d kube js calm config w uuid name pending (s, c)).1 ≤ pool_size (s, c)
  unfolding promote
  promote-size config w uuid name none s c first = promote_warm-size config w name s c first
  promote-size config w uuid name (some captured) s c first =
      let c' = (promote_state d kube js config captured uuid (s, c)).1.1 in
      let kept = promote_state-keeps d kube js config captured uuid s c in
      elim (Result-cases (promote_state d kube js config captured uuid (s, c)).0) [
        | inl (p, e) ↦ ground (arith, kept, finish_rotation-size w p name s c' first)
        | inr (x, e) ↦ ground (arith, kept)
      ]

  -- A rotation that no other task disturbs never enlarges the pool, on any outcome.
  rotate_active_pod-size :
      (uuid replenish : Text) (s : ControllerState V) (c : kube.Cluster)
      → pool_size (rotate_active_pod d kube js calm uuid replenish (s, c)).1 ≤ pool_size (s, c)
  unfolding rotate_active_pod
  rotate_active_pod-size uuid replenish s c = elim (Option-cases (head? s.warm_pod_names)) [
    | inl empty ↦ ground (arith)
    | inr (w, first) ↦
        let c' = (delete_active d kube js s.config s.active_pod_name (s, c)).1.1 in
        ground (
          arith,
          delete_active-keeps d kube js s.config s.active_pod_name s c,
          promote-size s.config w uuid (replenish_name d kube js replenish) s.pending_state s c'
              first,
        )
  ]

  -- The pool is bounded: over any number of rounds that no other task disturbs, neither before
  -- nor during the rotation, whatever the cluster answers, it never has more pods than at the
  -- start.
  pub run_epoch_loop-pool_bounded :
      (rounds : List (Round V)) (s : ControllerState V) (c : kube.Cluster)
      → AllCalm rounds
      → length (run_epoch_loop rounds (s, c)).0.warm_pod_names ≤ length s.warm_pod_names
  unfolding run_epoch_loop
  run_epoch_loop-pool_bounded [] s c undisturbed = omega arith
  run_epoch_loop-pool_bounded (r ∷ rs) s c undisturbed =
      let (s', c') = (rotate_active_pod d kube js calm r.uuid r.replenish_uuid (s, c)).1 in
      subst (λ w. pool_size (run_epoch_loop rs w) ≤ length s.warm_pod_names)
        (sym (run_round-calm r s c undisturbed.0))
        (omega (
          arith,
          rotate_active_pod-size r.uuid r.replenish_uuid s c,
          run_epoch_loop-pool_bounded rs s' c' undisturbed.1,
        ))

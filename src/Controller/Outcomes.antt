-- ===== src/Controller/Outcomes.antt =====
-- src/controller.rs, `rotate_active_pod`: an empty pool, a state that fails verification, a state that
-- is handed over, and the promotion of the warm pod.
use researcher_agent_kube_en.Base.{
  ◌≡◌, ◌≢◌, true, false, ◌++◌, [], ◌∷◌, none, some, ok, err, Text, lit, text_eq_iff, head?, arith,
}
use researcher_agent_kube_en.Platform.{Digest, Json}
use researcher_agent_kube_en.State.{AgentState, compute_signature}
use researcher_agent_kube_en.Controller.{
  state_verification_failed, warm_pool_exhausted, ControllerState, Pod, Kube, plain,
}
use researcher_agent_kube_en.Controller.Manifest.{build_agent_pod_manifest, pod_with_env, base_env}
use researcher_agent_kube_en.Controller.Rotation.{
  Others, without, first_part, promote_patch, provision_warm_pod, delete_active, promote_state,
  promote_warm, finish_rotation, promote, rotate_active_pod,
}

-- No other task touches the state.
abbrev pub calm : {V : Type 0} → Others V
calm = record { during_delete = λ s. s; during_promote = λ s. s; during_provision = λ s. s }

module _ {V : Type 0} (d : Digest) (kube : Kube) (js : Json (AgentState V)) where
  -- With no warm pod the rotation fails before it has touched the cluster: the active pod lives on.
  pub rotate_active_pod-exhausted :
      (others : Others V) (uuid replenish : Text) (s : ControllerState V) (c : kube.Cluster)
      → s.warm_pod_names ≡ []
      → rotate_active_pod d kube js others uuid replenish (s, c) ≡ (err warm_pool_exhausted, (s, c))
  unfolding rotate_active_pod
  rotate_active_pod-exhausted others uuid replenish s c e = ground arith

  delete_active_state :
      (s : ControllerState V) (c : kube.Cluster)
      → (delete_active d kube js s.config s.active_pod_name (s, c)).1.0 ≡ s
  unfolding delete_active
  delete_active_state s c = ground arith

  -- A pending state whose signature is wrong is not handed over by a rotation that no other task
  -- disturbs: it fails, and has done nothing to the cluster but delete the active pod, if there was one.
  -- The controller's state is as before.
  pub rotate_active_pod-unverified :
      (uuid replenish w : Text) (s : ControllerState V) (c : kube.Cluster) (captured : AgentState V)
      → head? s.warm_pod_names ≡ some w
      → s.pending_state ≡ some captured
      → captured.signature ≢ compute_signature d captured s.config.llm_api_key
      → let (r, (s', c')) = rotate_active_pod d kube js calm uuid replenish (s, c) in
        let (deleted, (_, c1)) = delete_active d kube js s.config s.active_pod_name (s, c) in
        (s' ≡ s)
        × (c' ≡ c1)
        × (r ≡ (elim deleted [
          | ok u ↦ err (state_verification_failed captured.pod_name)
          | err e ↦ err e
        ]))
  unfolding rotate_active_pod promote promote_state delete_active
  rotate_active_pod-unverified uuid replenish w s c captured first pending bad =
      let differs =
        text_eq_iff captured.signature (compute_signature d captured s.config.llm_api_key) in
      (ground arith, ground arith, ground arith)

  -- The warm pod and the pod that fills the pool up again.
  abbrev pub replenish_name : Text → Text
  replenish_name uuid = lit "raket-warm-" ++ first_part uuid

  abbrev pub warm_pod : ControllerState V → Text → Pod
  warm_pod s name = pod_with_env name s.config true (base_env s.config)

  -- The successor of an agent, which starts from the state in `json`.
  abbrev pub successor_pod : ControllerState V → Text → Text → Pod
  successor_pod s uuid json =
      pod_with_env (lit "raket-agent-" ++ first_part uuid) s.config false
        (base_env s.config ++ record { name = lit "INITIAL_STATE"; value = plain json } ∷ [])

  -- The handover, which no other task disturbs: where the signature is right and the cluster answers
  -- well, a new pod is created with the state, it is the active one, and the state is no longer pending. The warm pod that was first is
  -- neither promoted nor deleted: it only leaves the list, to which a further new pod is added.
  pub rotate_active_pod-hands_over :
      (uuid replenish w json : Text) (s : ControllerState V) (c c1 c2 c3 : kube.Cluster)
      (captured : AgentState V)
      → head? s.warm_pod_names ≡ some w
      → s.pending_state ≡ some captured
      → captured.signature ≡ compute_signature d captured s.config.llm_api_key
      → js.to_string captured ≡ ok json
      → delete_active d kube js s.config s.active_pod_name (s, c) ≡ (ok tt, (s, c1))
      → kube.create s.config.target_namespace (successor_pod s uuid json) c1 ≡ (ok tt, c2)
      → kube.create s.config.target_namespace (warm_pod s (replenish_name replenish)) c2
        ≡ (ok tt, c3)
      → rotate_active_pod d kube js calm uuid replenish (s, c) ≡ (
        ok tt,
        (
          record s {
            active_pod_name = some (lit "raket-agent-" ++ first_part uuid);
            warm_pod_names = without d kube js w s.warm_pod_names ++ replenish_name replenish ∷ [];
            pending_state = none;
          },
          c3,
        ),
      )
  unfolding rotate_active_pod promote promote_state finish_rotation provision_warm_pod delete_active
      build_agent_pod_manifest
  rotate_active_pod-hands_over uuid replenish w json s c c1 c2 c3 captured first pending signed
        printed deleted created filled =
      let same =
        text_eq_iff captured.signature (compute_signature d captured s.config.llm_api_key) in
      ground arith

  -- With no state pending, and where the cluster answers well and no other task disturbs the rotation,
  -- the first warm pod is relabelled and becomes the active one, and a new warm pod takes its place.
  pub rotate_active_pod-promotes_warm :
      (uuid replenish w : Text) (s : ControllerState V) (c c1 c2 c3 : kube.Cluster)
      → head? s.warm_pod_names ≡ some w
      → s.pending_state ≡ none
      → delete_active d kube js s.config s.active_pod_name (s, c) ≡ (ok tt, (s, c1))
      → kube.patch_labels s.config.target_namespace w promote_patch c1 ≡ (ok tt, c2)
      → kube.create s.config.target_namespace (warm_pod s (replenish_name replenish)) c2
        ≡ (ok tt, c3)
      → rotate_active_pod d kube js calm uuid replenish (s, c) ≡ (
        ok tt,
        (
          record s {
            active_pod_name = some w;
            warm_pod_names = without d kube js w s.warm_pod_names ++ replenish_name replenish ∷ [];
          },
          c3,
        ),
      )
  unfolding rotate_active_pod promote promote_warm finish_rotation provision_warm_pod delete_active
      build_agent_pod_manifest
  rotate_active_pod-promotes_warm uuid replenish w s c c1 c2 c3 first pending deleted patched
        filled =
      ground arith

-- ===== src/Controller/Rotation.antt =====
-- src/controller.rs, `provision_warm_pod` and `rotate_active_pod`. The lock of the state is free while the
-- cluster answers: what other tasks do to the state meanwhile is an argument for each such wait. The
-- names of new pods are made of UUIDs, which are arguments too.
use researcher_agent_kube_en.Base.{
  ℕ, Bool, true, false, not, ◌==◌, ◌++◌, List, [], ◌∷◌, Option, none, some, Result, ok, err, Text,
  lit, Map, text_eq, if◌then◌else◌, head?, retain,
}
use researcher_agent_kube_en.Platform.{Digest, Json}
use researcher_agent_kube_en.Config.{Config}
use researcher_agent_kube_en.State.{AgentState, compute_signature}
use researcher_agent_kube_en.Controller.{
  ControllerError, kube_error, state_verification_failed, warm_pool_exhausted, ControllerState,
  Kube,
}
use researcher_agent_kube_en.Controller.Manifest.{build_agent_pod_manifest}

-- `uuid.to_string().split('-').next()`: the text in front of the first dash.
unfoldable pub first_part : Text → Text
first_part [] = []
first_part (c ∷ s) = let rest = first_part s in if c == b'-' then [] else c ∷ rest

-- `{ "metadata": { "labels": { "role": "active" } } }`
unfoldable pub promote_patch : Map Text
promote_patch = (lit "role", lit "active") ∷ []

-- What other tasks do to the controller's state while a rotation waits for the cluster: for the
-- deletion, for the promotion, and for the pod that fills the pool up again.
pub record Others (V : Type 0) : Type 0 where
  pub during_delete : ControllerState V → ControllerState V
  pub during_promote : ControllerState V → ControllerState V
  pub during_provision : ControllerState V → ControllerState V

module _ {V : Type 0} (d : Digest) (kube : Kube) (js : Json (AgentState V)) where
  open kube use {Cluster, KubeError, create, delete, patch_labels}

  abbrev pub Error : Type 0
  Error = ControllerError KubeError js.SerdeError

  abbrev pub World : Type 0
  World = ControllerState V × Cluster

  -- A step that may fail.
  abbrev pub M : Type 0 → Type 0
  M A = World → Result A Error × World

  infixl 5 ◌>>=◌ ◌>>◌
  abbrev pub ◌>>=◌ : {A B : Type 0} → M A → (A → M B) → M B
  ◌>>=◌ m f w = let (r, w') = m w in elim r [ ok a ↦ f a w' | err e ↦ (err e, w') ]

  abbrev pub ◌>>◌ : {A B : Type 0} → M A → M B → M B
  m >> k = m >>= λ _. k

  abbrev pub pure : {A : Type 0} → Result A Error → M A
  pure r w = (r, w)

  abbrev pub get : M (ControllerState V)
  get (s, c) = (ok s, (s, c))

  abbrev pub modify : (ControllerState V → ControllerState V) → M (Unit {0})
  modify f (s, c) = (ok tt, (f s, c))

  -- A call of the cluster, with any error as one of the controller's.
  abbrev pub call : (Cluster → Result (Unit {0}) KubeError × Cluster) → M (Unit {0})
  call m (s, c) =
      let (r, c') = m c in elim r [ ok u ↦ (ok u, (s, c')) | err e ↦ (err (kube_error e), (s, c')) ]

  -- Whether an error of the cluster says that there is no such pod.
  abbrev pub is_404 : Option ℕ → Bool
  is_404 none = false
  is_404 (some code) = code == 404

  -- A call of the cluster that answers whether the pod was there.
  abbrev pub call_existing : (Cluster → Result (Unit {0}) KubeError × Cluster) → M Bool
  call_existing m (s, c) =
      let (r, c') = m c in
      elim r [
        | ok u ↦ (ok true, (s, c'))
        | err e ↦ (if is_404 (kube.api_code e) then ok false else err (kube_error e), (s, c'))
      ]

  -- What a step waits for takes time, whether it succeeds or fails: meanwhile other tasks change the
  -- controller's state.
  abbrev pub meanwhile : {A : Type 0} → (ControllerState V → ControllerState V) → M A → M A
  meanwhile during m w = let (r, (s, c)) = m w in (r, (during s, c))

  unfoldable pub provision_warm_pod : (ControllerState V → ControllerState V) → Text → M (Unit {0})
  provision_warm_pod during name = do
    s ← get
    manifest ← pure (build_agent_pod_manifest KubeError js name s.config true none)
    meanwhile during (call (create s.config.target_namespace manifest))
    modify (λ s. record s { warm_pod_names = s.warm_pod_names ++ name ∷ [] })

  -- The active pod, if there is one, is deleted; that it is gone already is no error.
  unfoldable pub delete_active : Config → Option Text → M (Unit {0})
  delete_active config none = pure (ok tt)
  delete_active config (some active_name) = do
    call_existing (delete config.target_namespace active_name)
    pure (ok tt)

  abbrev pub without : Text → List Text → List Text
  without name = retain (λ p. not (text_eq p name))

  -- With a captured state: its signature is verified, and a new pod is created with it.
  unfoldable pub promote_state : Config → AgentState V → Text → M Text
  promote_state config captured uuid =
      let new_active_name = lit "raket-agent-" ++ first_part uuid in
      if not (text_eq captured.signature (compute_signature d captured config.llm_api_key))
      then pure (err (state_verification_failed captured.pod_name))
      else do
        manifest ←
            pure
              (build_agent_pod_manifest KubeError js new_active_name config false (some captured))
        call (create config.target_namespace manifest)
        pure (ok new_active_name)

  -- The end of a rotation: the promoted pod is the active one, the warm pod is taken from the pool, and
  -- the pool is filled up.
  unfoldable pub finish_rotation : Others V → (next_warm promoted replenish : Text) → M (Unit {0})
  finish_rotation others next_warm promoted replenish = do
    modify (λ s. record s {
      active_pod_name = some promoted;
      warm_pod_names = without next_warm s.warm_pod_names;
      pending_state = none;
    })
    provision_warm_pod others.during_provision replenish

  -- Without a captured state: the warm pod is relabelled, or, if it is gone, replaced in the pool.
  unfoldable pub promote_warm : Others V → Config → (next_warm replenish : Text) → M (Unit {0})
  promote_warm others config next_warm replenish = do
    found ←
        meanwhile others.during_promote
          (call_existing (patch_labels config.target_namespace next_warm promote_patch))
    if found then finish_rotation others next_warm next_warm replenish else do
      modify (λ s. record s { warm_pod_names = without next_warm s.warm_pod_names })
      provision_warm_pod others.during_provision replenish

  -- The promotion, by whether a state is pending.
  unfoldable pub promote :
      Others V → Config → (next_warm uuid replenish : Text) → Option (AgentState V) → M (Unit {0})
  promote others config next_warm uuid replenish none =
      promote_warm others config next_warm replenish
  promote others config next_warm uuid replenish (some captured) = do
    promoted ← meanwhile others.during_promote (promote_state config captured uuid)
    finish_rotation others next_warm promoted replenish

  -- The rotation, once the first warm pod is known.
  unfoldable pub rotate_from :
      Others V → (uuid replenish : Text) → ControllerState V → Option Text → M (Unit {0})
  rotate_from others uuid replenish snapshot none = pure (err warm_pool_exhausted)
  rotate_from others uuid replenish snapshot (some next_warm) = do
    meanwhile others.during_delete (delete_active snapshot.config snapshot.active_pod_name)
    s ← get
    promote others snapshot.config next_warm uuid replenish s.pending_state

  unfoldable pub rotate_active_pod : Others V → (uuid replenish_uuid : Text) → M (Unit {0})
  unfolding rotate_from
  rotate_active_pod others uuid replenish_uuid = do
    s ← get
    rotate_from others uuid (lit "raket-warm-" ++ first_part replenish_uuid) s
        (head? s.warm_pod_names)

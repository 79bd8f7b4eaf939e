-- ===== src/Controller/Pool.antt =====
-- src/controller.rs, `rotate_active_pod`: the list of the warm pods.
use researcher_agent_kube_en.Base.{
  ◌≡◌, refl, subst, ◌≢◌, ◌++◌, List, [], ◌∷◌, Option, none, some, Result, ok, err, Text,
  text_eq_iff, text_eq_refl, retain, arith, inl, inr, Result-cases, ◌⊎◌,
}
use researcher_agent_kube_en.Platform.{Digest, Json}
use researcher_agent_kube_en.State.{AgentState}
use researcher_agent_kube_en.Config.{Config}
use researcher_agent_kube_en.Controller.{ControllerState, Kube}
use researcher_agent_kube_en.Controller.Rotation.{
  Error, World, without, promote_patch, provision_warm_pod, delete_active, promote_state,
  promote_warm, finish_rotation, promote, rotate_active_pod,
}
use researcher_agent_kube_en.Controller.Outcomes.{calm, replenish_name}

-- The name is none of the list.
abbrev pub Absent : Text → List Text → Type 0
Absent w [] = Unit
Absent w (x ∷ xs) = (x ≢ w) × Absent w xs

module _ {V : Type 0} (d : Digest) (kube : Kube) (js : Json (AgentState V)) where
  without-Absent : (w : Text) (ws : List Text) → Absent w ws → without d kube js w ws ≡ ws
  unfolding retain
  without-Absent w [] a = refl
  without-Absent w (x ∷ xs) a = ground (arith, text_eq_iff x w, without-Absent w xs a.1)

  pub without_self : (w : Text) (ws : List Text) → Absent w ws → without d kube js w (w ∷ ws) ≡ ws
  unfolding retain
  without_self w ws a = ground (arith, text_eq_refl w, without-Absent w ws a)

  -- A step that adds the name on success and leaves the pool `ws` on failure.
  abbrev Fills : List Text → Text → Result (Unit {0}) (Error d kube js) × World d kube js → Type 0
  Fills ws name (r, (s, c)) =
      ((r ≡ ok tt) × (s.warm_pod_names ≡ ws ++ name ∷ []))
      ⊎ ((e : Error d kube js) × (r ≡ err e) × (s.warm_pod_names ≡ ws))

  -- A rotation: it may also fail with the pool as it was.
  abbrev pub Rotates :
      Text → List Text → Text → Result (Unit {0}) (Error d kube js) × World d kube js → Type 0
  Rotates w ws name (r, (s, c)) =
      ((r ≡ ok tt) × (s.warm_pod_names ≡ ws ++ name ∷ []))
      ⊎ ((e : Error d kube js) × (r ≡ err e)
          × ((s.warm_pod_names ≡ w ∷ ws) ⊎ (s.warm_pod_names ≡ ws)))

  provision_warm_pod-Fills :
      (name : Text) (s : ControllerState V) (c : kube.Cluster)
      → Fills s.warm_pod_names name (provision_warm_pod d kube js (λ s. s) name (s, c))
  unfolding provision_warm_pod
  provision_warm_pod-Fills name s c = ground arith

  finish_rotation-Fills :
      (w promoted name : Text) (ws : List Text) (s : ControllerState V) (c : kube.Cluster)
      → without d kube js w s.warm_pod_names ≡ ws
      → Fills ws name (finish_rotation d kube js calm w promoted name (s, c))
  unfolding finish_rotation
  finish_rotation-Fills w promoted name ws s c e =
      subst (λ ws. Fills ws name (finish_rotation d kube js calm w promoted name (s, c))) e
        (provision_warm_pod-Fills name
          (record s {
            active_pod_name = some promoted;
            warm_pod_names = without d kube js w s.warm_pod_names;
            pending_state = none;
          })
          c)

  promote_warm-Rotates :
      (config : Config) (w name : Text) (ws : List Text) (s : ControllerState V) (c : kube.Cluster)
      → s.warm_pod_names ≡ w ∷ ws
      → without d kube js w s.warm_pod_names ≡ ws
      → Rotates w ws name (promote_warm d kube js calm config w name (s, c))
  unfolding promote_warm
  promote_warm-Rotates config w name ws s c pool e =
      let c' = (kube.patch_labels config.target_namespace w promote_patch c).1 in
      ground (
        arith,
        finish_rotation-Fills w w name ws s c' e,
        provision_warm_pod-Fills name
            (record s { warm_pod_names = without d kube js w s.warm_pod_names }) c',
      )

  pub promote_state-keeps :
      (config : Config) (captured : AgentState V) (uuid : Text) (s : ControllerState V)
      (c : kube.Cluster)
      → (promote_state d kube js config captured uuid (s, c)).1.0 ≡ s
  unfolding promote_state
  promote_state-keeps config captured uuid s c = ground arith

  promote-Rotates :
      (config : Config) (w uuid name : Text) (ws : List Text) (pending : Option (AgentState V))
      (s : ControllerState V) (c : kube.Cluster)
      → s.warm_pod_names ≡ w ∷ ws
      → without d kube js w s.warm_pod_names ≡ ws
      → Rotates w ws name (promote d kube js calm config w uuid name pending (s, c))
  unfolding promote
  promote-Rotates config w uuid name ws none s c pool e =
      promote_warm-Rotates config w name ws s c pool e
  promote-Rotates config w uuid name ws (some captured) s c pool e =
      let c' = (promote_state d kube js config captured uuid (s, c)).1.1 in
      elim (Result-cases (promote_state d kube js config captured uuid (s, c)).0) [
        | inl (p, e1) ↦ ground (
          arith,
          promote_state-keeps config captured uuid s c,
          finish_rotation-Fills w p name ws s c' e,
        )
        | inr (x, e1) ↦ ground (arith, promote_state-keeps config captured uuid s c)
      ]

  pub delete_active-keeps :
      (config : Config) (active : Option Text) (s : ControllerState V) (c : kube.Cluster)
      → (delete_active d kube js config active (s, c)).1.0 ≡ s
  unfolding delete_active
  delete_active-keeps config none s c = refl
  delete_active-keeps config (some a) s c = ground arith

  -- The pool under a rotation that no other task disturbs, where its first name stands once: a success takes the first name out and adds
  -- one at the end, so the pool keeps its size; a failure leaves the pool as it was, or loses the first
  -- name for good.
  pub rotate_active_pod-pool :
      (uuid replenish w : Text) (ws : List Text) (s : ControllerState V) (c : kube.Cluster)
      → s.warm_pod_names ≡ w ∷ ws
      → Absent w ws
      → Rotates w ws
          (replenish_name d kube js replenish)
          (rotate_active_pod d kube js calm uuid replenish (s, c))
  unfolding rotate_active_pod
  rotate_active_pod-pool uuid replenish w ws s c pool absent =
      let name = replenish_name d kube js replenish in
      let c' = (delete_active d kube js s.config s.active_pod_name (s, c)).1.1 in
      let kept : without d kube js w s.warm_pod_names ≡ ws = rw pool (without_self w ws absent) in
      ground (
        arith,
        delete_active-keeps s.config s.active_pod_name s c,
        promote-Rotates s.config w uuid name ws s.pending_state s c' pool kept,
      )

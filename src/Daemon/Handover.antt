-- ===== src/Daemon/Handover.antt =====
-- src/main.rs, `main`: the steps of the daemon's tasks on its two states, and what they reach.
use researcher_agent_kube_en.Base.{
  ◌≡◌, refl, none, some, Text, head?, arith, Option-cases, inl, inr,
}
use researcher_agent_kube_en.Platform.{Digest, Json}
use researcher_agent_kube_en.State.{AgentState}
use researcher_agent_kube_en.Config.{Config}
use researcher_agent_kube_en.FactGraph.{FactGraph}
use researcher_agent_kube_en.Ledger.{Ledger}
use researcher_agent_kube_en.Verify.{VerificationEngine}
use researcher_agent_kube_en.Api.{AppState}
use researcher_agent_kube_en.Api.Ingest.{ingest_state}
use researcher_agent_kube_en.Controller.{ControllerState, Kube, new}
use researcher_agent_kube_en.Controller.Rotation.{
  Others, rotate_active_pod, provision_warm_pod, finish_rotation, promote_warm, promote,
  delete_active, without, promote_patch,
}
use researcher_agent_kube_en.Controller.Outcomes.{replenish_name}
use researcher_agent_kube_en.Controller.Pool.{delete_active-keeps}
use researcher_agent_kube_en.Daemon.{Daemon, start}

-- What another task does to the controller's state leaves it without a pending one.
abbrev pub KeepsNone : {V : Type 0} → (ControllerState V → ControllerState V) → Type 0
KeepsNone {V = V} f = (s : ControllerState V) → s.pending_state ≡ none → (f s).pending_state ≡ none

pub record AllKeepNone {V : Type 0} (others : Others V) : Type 0 where
  pub on_delete : KeepsNone others.during_delete
  pub on_promote : KeepsNone others.during_promote
  pub on_provision : KeepsNone others.during_provision

module _ {V : Type 0} (d : Digest) (kube : Kube) (js : Json (AgentState V)) where
  provision_warm_pod-none :
      (during : ControllerState V → ControllerState V) (name : Text) (s : ControllerState V)
      (c : kube.Cluster)
      → KeepsNone during
      → s.pending_state ≡ none
      → (provision_warm_pod d kube js during name (s, c)).1.0.pending_state ≡ none
  unfolding provision_warm_pod
  provision_warm_pod-none during name s c keeps e = ground (arith, keeps s e)

  promote_warm-none :
      (others : Others V) (config : Config) (w name : Text) (s : ControllerState V)
      (c : kube.Cluster)
      → AllKeepNone others
      → s.pending_state ≡ none
      → (promote_warm d kube js others config w name (s, c)).1.0.pending_state ≡ none
  unfolding promote_warm finish_rotation
  promote_warm-none others config w name s c keeps e =
      let s1 = others.during_promote s in
      let c1 = (kube.patch_labels config.target_namespace w promote_patch c).1 in
      let left = without d kube js w s1.warm_pod_names in
      ground (
        arith,
        keeps.on_promote s e,
        provision_warm_pod-none others.during_provision name
            (record s1 { active_pod_name = some w; warm_pod_names = left; pending_state = none }) c1
            keeps.on_provision refl,
        provision_warm_pod-none others.during_provision name (record s1 { warm_pod_names = left })
            c1 keeps.on_provision (keeps.on_promote s e),
      )

  -- A rotation without a pending state leaves none.
  rotate_active_pod-none :
      (others : Others V) (uuid replenish : Text) (s : ControllerState V) (c : kube.Cluster)
      → AllKeepNone others
      → s.pending_state ≡ none
      → (rotate_active_pod d kube js others uuid replenish (s, c)).1.0.pending_state ≡ none
  unfolding rotate_active_pod promote delete_active
  rotate_active_pod-none others uuid replenish s c keeps e =
      let w' = delete_active d kube js s.config s.active_pod_name (s, c) in
      let s1 = others.during_delete s in
      let name = replenish_name d kube js replenish in
      elim (Option-cases (head? s.warm_pod_names)) [
        | inl empty ↦ ground arith
        | inr (w, first) ↦ ground (
          arith,
          delete_active-keeps d kube js s.config s.active_pod_name s c,
          keeps.on_delete s e,
          promote_warm-none others s.config w name s1 w'.1.1 keeps (keeps.on_delete s e),
        )
      ]

module _ {V F : Type 0} (d : Digest) (kube : Kube) (js : Json (AgentState V)) where
  -- A step: a state is taken in, a round of the epoch loop, or a pod of the warm-up. The handlers that
  -- leave both pending states alone change the rest of `app` in any way.
  pub data Step : Daemon V F → Daemon V F → Type 0 where
    ingest :
        (s : Daemon V F) (payload : AgentState V)
        → Step s (record s { app = (ingest_state d s.app payload).1 })
    serve : (s : Daemon V F) (app : AppState V F) → Step s (record s { app = app })
    rotate :
        (s : Daemon V F) (others : Others V) (uuid replenish : Text) (c : kube.Cluster)
        → AllKeepNone others
        → Step s (record s {
          ctrl = (rotate_active_pod d kube js others uuid replenish (s.ctrl, c)).1.0;
        })
    warm_up :
        (s : Daemon V F) (during : ControllerState V → ControllerState V) (name : Text)
        (c : kube.Cluster)
        → KeepsNone during
        → Step s (record s { ctrl = (provision_warm_pod d kube js during name (s.ctrl, c)).1.0 })

  pub data Steps : Daemon V F → Daemon V F → Type 0 where
    done : (s : Daemon V F) → Steps s s
    more : (s t u : Daemon V F) → Steps s t → Step t u → Steps s u

  Step-none :
      {s t : Daemon V F} → Step s t → s.ctrl.pending_state ≡ none → t.ctrl.pending_state ≡ none
  Step-none (ingest s payload) e = e
  Step-none (serve s app) e = e
  Step-none (rotate s others uuid replenish c keeps) e =
      rotate_active_pod-none d kube js others uuid replenish s.ctrl c keeps e
  Step-none (warm_up s during name c keeps) e =
      provision_warm_pod-none d kube js during name s.ctrl c keeps e

  Steps-none :
      {s t : Daemon V F} → Steps s t → s.ctrl.pending_state ≡ none → t.ctrl.pending_state ≡ none
  Steps-none (done s) e = e
  Steps-none (more s t u before last) e = Step-none last (Steps-none before e)

  -- The daemon never hands a state over: in every state that it can reach, whatever agents have sent,
  -- no state is pending on the controller's side, which is where a rotation looks for one, as long as
  -- the tasks that run while a rotation or the warm-up waits leave none pending there themselves.
  pub ingested_never_handed_over :
      (config : Config) (engine : VerificationEngine) (graph : FactGraph) (ledger : Ledger F)
      (t : Daemon V F)
      → Steps (start config engine graph ledger) t
      → t.ctrl.pending_state ≡ none
  unfolding start new
  ingested_never_handed_over config engine graph ledger t steps = Steps-none steps refl

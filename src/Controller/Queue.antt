-- ===== src/Controller/Queue.antt =====
-- src/controller.rs: the warm pool as a queue, over the rounds of the epoch loop.
use mathlib.Core.List.{append_assoc}
use researcher_agent_kube_en.Base.{
  ◌≡◌, refl, ap, sym, subst, ◌∙◌, ◌≢◌, ◌++◌, List, [], ◌∷◌, Option, none, some, ok, Text, lit,
  arith, pair_eq,
}
use researcher_agent_kube_en.Platform.{Digest, Json}
use researcher_agent_kube_en.State.{AgentState}
use researcher_agent_kube_en.Config.{Config}
use researcher_agent_kube_en.Controller.{ControllerState, Kube, Pod}
use researcher_agent_kube_en.Controller.Rotation.{
  first_part, rotate_active_pod, delete_active, without, promote_patch,
}
use researcher_agent_kube_en.Controller.Outcomes.{
  calm, replenish_name, warm_pod, rotate_active_pod-promotes_warm,
}
use researcher_agent_kube_en.Controller.Pool.{Absent, without_self, delete_active-keeps}
use researcher_agent_kube_en.Controller.EpochLoop.{Round, AllCalm, run_epoch_loop, run_round-calm}

-- The cluster answers every call well.
pub record IsUp (kube : Kube) : Type 0 where
  pub creates :
      (namespace : Text) (p : Pod) (c : kube.Cluster) → (kube.create namespace p c).0 ≡ ok tt
  pub deletes :
      (namespace name : Text) (c : kube.Cluster) → (kube.delete namespace name c).0 ≡ ok tt
  pub patches :
      (namespace name : Text) (labels : List (Text × Text)) (c : kube.Cluster)
      → (kube.patch_labels namespace name labels c).0 ≡ ok tt

abbrev pub AllDistinct : List Text → Type 0
AllDistinct [] = Unit
AllDistinct (x ∷ xs) = Absent x xs × AllDistinct xs

-- The names of the pods that the rounds add.
abbrev pub new_names : {V : Type 0} → List (Round V) → List Text
new_names [] = []
new_names (r ∷ rs) = (lit "raket-warm-" ++ first_part r.replenish_uuid) ∷ new_names rs

-- The pool as a queue: a round takes the first name for the active pod, and a new one joins the end.
unfoldable pub turn : List Text → List Text → Option Text → List Text × Option Text
turn pool [] active = (pool, active)
turn [] (n ∷ ns) active = ([], active)
turn (w ∷ ws) (n ∷ ns) active = turn (ws ++ n ∷ []) ns (some w)

Absent-append : (x : Text) (xs ys : List Text) → Absent x (xs ++ ys) → Absent x xs
Absent-append x [] ys h = tt
Absent-append x (y ∷ xs) ys h = (h.0, Absent-append x xs ys h.1)

append_nonempty : (xs : List Text) (x : Text) → (xs ++ x ∷ []) ≢ []
append_nonempty [] x e = ground arith
append_nonempty (y ∷ xs) x e = ground arith

module _ {V : Type 0} (d : Digest) (kube : Kube) (js : Json (AgentState V)) (up : IsUp kube) where
  delete_active_up :
      (config : Config) (active : Option Text) (s : ControllerState V) (c : kube.Cluster)
      → (delete_active d kube js config active (s, c)).0 ≡ ok tt
  unfolding delete_active
  delete_active_up config none s c = refl
  delete_active_up config (some a) s c = ground (arith, up.deletes config.target_namespace a c)

  -- The state after a round, by what is left of the pool.
  abbrev queued : ControllerState V → (w name : Text) → List Text → ControllerState V
  queued s w name ws = record s { active_pod_name = some w; warm_pod_names = ws ++ name ∷ [] }

  -- One round: the pool turns, and the rotation succeeds.
  rotate_turns :
      (uuid replenish w : Text) (ws : List Text) (s : ControllerState V) (c : kube.Cluster)
      → s.warm_pod_names ≡ w ∷ ws
      → s.pending_state ≡ none
      → Absent w ws
      → let (r, (s', c')) = rotate_active_pod d kube js calm uuid replenish (s, c) in
        (r ≡ ok tt)
        × (s' ≡ record s {
          active_pod_name = some w;
          warm_pod_names = ws ++ (lit "raket-warm-" ++ first_part replenish) ∷ [];
        })
  rotate_turns uuid replenish w ws s c pool pending absent =
      let deleted = delete_active d kube js s.config s.active_pod_name (s, c) in
      let c1 = deleted.1.1 in
      let (patched, c2) = kube.patch_labels s.config.target_namespace w promote_patch c1 in
      let name = replenish_name d kube js replenish in
      let (created, c3) = kube.create s.config.target_namespace (warm_pod d kube js s name) c2 in
      let run =
        rotate_active_pod-promotes_warm d kube js uuid replenish w s c c1 c2 c3 (rw pool refl)
          pending
          (pair_eq _ _ _ _ (delete_active_up s.config s.active_pod_name s c)
            (pair_eq _ _ _ _ (delete_active-keeps d kube js s.config s.active_pod_name s c) refl))
          (pair_eq _ _ _ _ (up.patches s.config.target_namespace w promote_patch c1) refl)
          (pair_eq _ _ _ _ (up.creates s.config.target_namespace _ c2) refl) in
      let kept : without d kube js w s.warm_pod_names ≡ ws =
        rw pool (without_self d kube js w ws absent) in
      (
        ap (λ x. x.0) run,
        ap (λ x. x.1.0) run ∙ ap (queued s w (lit "raket-warm-" ++ first_part replenish)) kept,
      )

  run_turns :
      (rounds : List (Round V)) (pool : List Text) (s : ControllerState V) (c : kube.Cluster)
      → AllCalm rounds
      → s.pending_state ≡ none
      → s.warm_pod_names ≡ pool
      → pool ≢ []
      → AllDistinct (pool ++ new_names rounds)
      → let (pool', active) = turn pool (new_names rounds) s.active_pod_name in
        (run_epoch_loop d kube js rounds (s, c)).0
        ≡ record s { active_pod_name = active; warm_pod_names = pool' }
  unfolding run_epoch_loop turn
  run_turns [] pool s c undisturbed pending held nonempty distinct =
      ap (λ ws. record s { warm_pod_names = ws }) held
  run_turns (r ∷ rs) [] s c undisturbed pending held nonempty distinct = absurd (nonempty refl)
  run_turns (r ∷ rs) (w ∷ ws) s c undisturbed pending held nonempty distinct =
      let name = lit "raket-warm-" ++ first_part r.replenish_uuid in
      let s' = queued s w name ws in
      let c' = (rotate_active_pod d kube js calm r.uuid r.replenish_uuid (s, c)).1.1 in
      let (done, turned) =
        rotate_turns r.uuid r.replenish_uuid w ws s c held pending
          (Absent-append w ws (name ∷ new_names rs) distinct.0) in
      let (pool', active) = turn (ws ++ name ∷ []) (new_names rs) (some w) in
      subst
        (λ x.
          (run_epoch_loop d kube js rs x).0
          ≡ record s { active_pod_name = active; warm_pod_names = pool' })
        (sym (run_round-calm d kube js r s c undisturbed.0))
        (ap (λ x. (run_epoch_loop d kube js rs x).0) (pair_eq _ s' _ c' turned refl)
          ∙ run_turns rs (ws ++ name ∷ []) s' c' undisturbed.1 pending refl
              (append_nonempty ws name)
              (subst AllDistinct (sym (append_assoc ws (name ∷ []) (new_names rs))) distinct.1))

  -- While the cluster answers well, no other task disturbs the rounds and no state is pending, the
  -- controller works as a queue, provided that all names differ: every round makes the first pod of the
  -- pool the active one and adds a pod at the end.
  pub run_epoch_loop-turn :
      (rounds : List (Round V)) (s : ControllerState V) (c : kube.Cluster)
      → AllCalm rounds
      → s.pending_state ≡ none
      → s.warm_pod_names ≢ []
      → AllDistinct (s.warm_pod_names ++ new_names rounds)
      → let (pool, active) = turn s.warm_pod_names (new_names rounds) s.active_pod_name in
        (run_epoch_loop d kube js rounds (s, c)).0
        ≡ record s { active_pod_name = active; warm_pod_names = pool }
  run_epoch_loop-turn rounds s c calm_rounds pending nonempty distinct =
      run_turns rounds s.warm_pod_names s c calm_rounds pending refl nonempty distinct

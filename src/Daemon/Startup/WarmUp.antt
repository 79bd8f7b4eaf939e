-- ===== src/Daemon/Startup/WarmUp.antt =====
-- src/main.rs, the task that fills the warm pool when the daemon starts.
use mathlib.Core.List.{append_assoc, append-nil}
use researcher_agent_kube_en.Base.{
  true, ◌≡◌, refl, ap, sym, subst, ◌∙◌, ◌++◌, List, [], ◌∷◌, ok, Text, lit, ℕ, zero, suc, ◌+◌, ◌<◌,
  ◌≤◌, arith, inl, length,
}
use researcher_agent_kube_en.Base.Decimal.{decimal, decimal-Lacks, decimal-injective, u64_mod}
use researcher_agent_kube_en.Base.Strings.Laws.{Lacks, split_unique}
use researcher_agent_kube_en.Platform.{Digest, Json}
use researcher_agent_kube_en.Config.{Config}
use researcher_agent_kube_en.State.{AgentState}
use researcher_agent_kube_en.Controller.{ControllerState, Kube, Pod, new}
use researcher_agent_kube_en.Controller.Manifest.{build_agent_pod_manifest, pod_with_env, base_env}
use researcher_agent_kube_en.Controller.Rotation.{first_part, provision_warm_pod}
use researcher_agent_kube_en.Controller.Pool.{Absent}
use researcher_agent_kube_en.Controller.Queue.{AllDistinct}
use researcher_agent_kube_en.Daemon.Startup.{warm_name, warm_up_from, warm_up}

-- The names of the rounds from `i` on.
abbrev pub warm_names : (ℕ → Text) → (count i : ℕ) → List Text
warm_names draw zero i = []
warm_names draw (suc n) i = warm_name i (draw i) ∷ warm_names draw n (i + 1)

pub length-warm_names : (draw : ℕ → Text) (n i : ℕ) → length (warm_names draw n i) ≡ n
length-warm_names draw zero i = refl
length-warm_names draw (suc n) i = ground (arith, length-warm_names draw n (i + 1))

prefix_injective : (a s t : Text) → (a ++ s) ≡ (a ++ t) → s ≡ t
prefix_injective [] s t e = e
prefix_injective (c ∷ a) s t e = prefix_injective a s t (ground arith)

decimal-Lacks_dash : (n : ℕ) → Lacks b'-' (decimal n)
decimal-Lacks_dash n = decimal-Lacks b'-' n (inl (omega arith))

-- The round is read off the name.
warm_name-injective :
    (i j : ℕ) (u v : Text) → i < u64_mod → j < u64_mod → warm_name i u ≡ warm_name j v → i ≡ j
unfolding warm_name
warm_name-injective i j u v hi hj e =
    let behind = prefix_injective (lit "raket-warm-") _ _ e in
    let (same, _) =
      split_unique b'-' (decimal i) (decimal j) (first_part u) (first_part v) (decimal-Lacks_dash i)
        (decimal-Lacks_dash j) behind in
    decimal-injective i j hi hj same

warm_names-Absent :
    (draw : ℕ → Text) (n i j : ℕ) (u : Text)
    → j < i
    → i + n ≤ u64_mod
    → Absent (warm_name j u) (warm_names draw n i)
warm_names-Absent draw zero i j u h bound = tt
warm_names-Absent draw (suc n) i j u h bound = (
  λ e. ground (arith, warm_name-injective i j (draw i) u (omega arith) (omega arith) e),
  warm_names-Absent draw n (i + 1) j u (omega arith) (omega arith),
)

warm_names-AllDistinct :
    (draw : ℕ → Text) (n i : ℕ) → i + n ≤ u64_mod → AllDistinct (warm_names draw n i)
warm_names-AllDistinct draw zero i bound = tt
warm_names-AllDistinct draw (suc n) i bound = (
  warm_names-Absent draw n (i + 1) i (draw i) (omega arith) (omega arith),
  warm_names-AllDistinct draw n (i + 1) (omega arith),
)

module _ {V : Type 0} (d : Digest) (k : Kube) (js : Json (AgentState V)) where
  -- The cluster creates every pod that it is asked for.
  abbrev pub Creates : Type 0
  Creates = (namespace : Text) (p : Pod) (c : k.Cluster) → (k.create namespace p c).0 ≡ ok tt

  -- The state with names joined to the pool.
  abbrev joined : ControllerState V → List Text → ControllerState V
  joined s names = record s { warm_pod_names = s.warm_pod_names ++ names }

  provision_warm_pod_joins :
      (name : Text) (s : ControllerState V) (c : k.Cluster)
      → Creates
      → (provision_warm_pod d k js (λ s. s) name (s, c)).1.0 ≡ joined s (name ∷ [])
  unfolding provision_warm_pod build_agent_pod_manifest
  provision_warm_pod_joins name s c up =
      let pod = pod_with_env name s.config true (base_env s.config) in
      ground (arith, up s.config.target_namespace pod c)

  warm_up_from_joins :
      (draw : ℕ → Text) (n i : ℕ) (s : ControllerState V) (c : k.Cluster)
      → Creates
      → (warm_up_from d k js draw (λ j s. s) n i (s, c)).0 ≡ joined s (warm_names draw n i)
  unfolding warm_up_from
  warm_up_from_joins draw zero i s c up =
      ap (λ ws. record s { warm_pod_names = ws }) (sym (append-nil s.warm_pod_names))
  warm_up_from_joins draw (suc n) i s c up =
      let (s1, c1) = (provision_warm_pod d k js (λ s. s) (warm_name i (draw i)) (s, c)).1 in
      warm_up_from_joins draw n (i + 1) s1 c1 up
      ∙ ap (λ s. joined s (warm_names draw n (i + 1)))
          (provision_warm_pod_joins (warm_name i (draw i)) s c up)
      ∙ ap (λ ws. record s { warm_pod_names = ws }) (append_assoc s.warm_pod_names _ _)

  -- What the warm-up makes of the state.
  pub warm_up_joins :
      (draw : ℕ → Text) (config : Config) (c : k.Cluster)
      → Creates
      → (warm_up d k js draw (λ j s. s) (new config, c)).0
        ≡ record (new config) { warm_pod_names = warm_names draw config.warm_pool_size 0 }
  unfolding warm_up new
  warm_up_joins draw config c up = warm_up_from_joins draw config.warm_pool_size 0 (new config) c up

  -- The warm-up of a daemon that has just started, on a cluster that creates every pod and with no other
  -- task at the state: the pool ends up with as many pods as the configuration says, whose names differ
  -- in pairs whatever the UUIDs are; nothing else of the state changes.
  pub warm_up_fills :
      (draw : ℕ → Text) (config : Config) (c : k.Cluster)
      → Creates
      → config.warm_pool_size ≤ u64_mod
      → let s = (warm_up d k js draw (λ j s. s) (new config, c)).0 in
        (length s.warm_pod_names ≡ config.warm_pool_size)
        × AllDistinct s.warm_pod_names
        × (s ≡ record (new config) { warm_pod_names = s.warm_pod_names })
  warm_up_fills draw config c up bound =
      let filled = warm_up_joins draw config c up in
      let names = ap (λ s. s.warm_pod_names) filled in
      (
        ap length names ∙ length-warm_names draw config.warm_pool_size 0,
        subst AllDistinct (sym names)
            (warm_names-AllDistinct draw config.warm_pool_size 0 (omega arith)),
        filled ∙ ap (λ ws. record (new config) { warm_pod_names = ws }) (sym names),
      )

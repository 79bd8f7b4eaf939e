-- ===== src/Daemon/Startup/FirstRounds.antt =====
-- src/main.rs and src/controller.rs: the warm-up, and the rounds of the epoch loop after it.
use researcher_agent_kube_en.Base.{
  ◌≡◌, refl, ap, ◌∙◌, ◌≢◌, ◌++◌, List, [], ◌∷◌, Option, some, Text, ℕ, zero, suc, ◌+◌, ◌<◌, arith,
  length, length-append, get_elem?,
}
use researcher_agent_kube_en.Platform.{Digest, Json}
use researcher_agent_kube_en.Config.{Config}
use researcher_agent_kube_en.State.{AgentState}
use researcher_agent_kube_en.Controller.{Kube, new}
use researcher_agent_kube_en.Controller.EpochLoop.{Round, AllCalm, run_epoch_loop}
use researcher_agent_kube_en.Controller.Queue.{
  IsUp, AllDistinct, new_names, turn, run_epoch_loop-turn,
}
use researcher_agent_kube_en.Daemon.Startup.{warm_name, warm_up}
use researcher_agent_kube_en.Daemon.Startup.WarmUp.{warm_names, length-warm_names, warm_up_joins}

get_elem?-append :
    {A : Type 0} (xs ys : List A) (i : ℕ) → i < length xs → get_elem? (xs ++ ys) i ≡ get_elem? xs i
get_elem?-append [] ys i h = ground arith
get_elem?-append (x ∷ xs) ys zero h = refl
get_elem?-append (x ∷ xs) ys (suc i) h = get_elem?-append xs ys i (omega arith)

add_zero : (i : ℕ) → i + 0 ≡ i
add_zero i = omega arith

zero_add : (i : ℕ) → 0 + i ≡ i
zero_add i = omega arith

add_suc : (i j : ℕ) → i + suc j ≡ i + 1 + j
add_suc i j = omega arith

get_elem?-warm_names :
    (draw : ℕ → Text) (n i j : ℕ)
    → j < n
    → get_elem? (warm_names draw n i) j ≡ some (warm_name (i + j) (draw (i + j)))
get_elem?-warm_names draw zero i j h = ground arith
get_elem?-warm_names draw (suc n) i zero h = rw (add_zero i) refl
get_elem?-warm_names draw (suc n) i (suc j) h =
    rw (add_suc i j) (get_elem?-warm_names draw n (i + 1) j (omega arith))

-- As long as the first pods of the pool last, the last turn took the one of its number.
turn-active :
    (pool names : List Text) (name : Text) (active : Option Text)
    → length names < length pool
    → (turn pool (name ∷ names) active).1 ≡ get_elem? pool (length names)
unfolding turn
turn-active [] names name active h = ground arith
turn-active (w ∷ ws) [] name active h = refl
turn-active (w ∷ ws) (n ∷ names) name active h =
    turn-active (ws ++ name ∷ []) names n (some w) (omega (arith, length-append ws (name ∷ [])))
    ∙ get_elem?-append ws (name ∷ []) (length names) (omega arith)

length-new_names :
    {V : Type 0} (rounds : List (Round V)) → length (new_names rounds) ≡ length rounds
length-new_names [] = refl
length-new_names (r ∷ rounds) = ap suc (length-new_names rounds)

nonempty : {A : Type 0} (xs : List A) → 0 < length xs → xs ≢ []
nonempty [] h e = ground arith
nonempty (x ∷ xs) h e = ground arith

module _ {V : Type 0} (d : Digest) (kube : Kube) (js : Json (AgentState V)) (up : IsUp kube) where
  -- Each pod of the warm-up has its turn: after as many rounds as stand in front of it and one more, the
  -- pod that the warm-up made in that place is the active one. It holds on a cluster that answers well,
  -- if no other task disturbs the rounds and the names of the new pods differ from all others.
  pub warm_pods_take_turns :
      (draw : ℕ → Text) (config : Config) (c : kube.Cluster) (round : Round V)
      (rounds : List (Round V))
      → length rounds < config.warm_pool_size
      → AllCalm (round ∷ rounds)
      → let (s, c1) = warm_up d kube js draw (λ j s. s) (new config, c) in
        AllDistinct (s.warm_pod_names ++ new_names (round ∷ rounds))
        → (run_epoch_loop d kube js (round ∷ rounds) (s, c1)).0.active_pod_name
          ≡ some (warm_name (length rounds) (draw (length rounds)))
  unfolding new
  warm_pods_take_turns draw config c round rounds enough calm distinct =
      let (s, c1) = warm_up d kube js draw (λ j s. s) (new config, c) in
      let names = new_names rounds in
      let filled = warm_up_joins d kube js draw config c up.creates in
      let pool : s.warm_pod_names ≡ warm_names draw config.warm_pool_size 0 =
        ap (λ s. s.warm_pod_names) filled in
      let size : length s.warm_pod_names ≡ config.warm_pool_size =
        ap length pool ∙ length-warm_names draw config.warm_pool_size 0 in
      let turned =
        run_epoch_loop-turn d kube js up (round ∷ rounds) s c1 calm
          (ap (λ s. s.pending_state) filled) (nonempty s.warm_pod_names (omega arith)) distinct in
      ap (λ s. s.active_pod_name) turned
      ∙ turn-active s.warm_pod_names names _ s.active_pod_name
          (omega (arith, length-new_names rounds))
      ∙ ap (get_elem? s.warm_pod_names) (length-new_names rounds)
      ∙ ap (λ ws. get_elem? ws (length rounds)) pool
      ∙ get_elem?-warm_names draw config.warm_pool_size 0 (length rounds) enough
      ∙ ap (λ i. some (warm_name i (draw i))) (zero_add (length rounds))

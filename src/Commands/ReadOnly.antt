-- ===== src/Commands/ReadOnly.antt =====
-- src/main.rs: the subcommands that only ask.
use researcher_agent_kube_en.Base.{ℕ, sym, subst, List, [], ◌∷◌, Option, none, some, Result, Text}
use researcher_agent_kube_en.Base.Steps.{pure}
use researcher_agent_kube_en.Base.Steps.Keeps.{Keeps, Keeps-bind, keeps_rules}
use researcher_agent_kube_en.Platform.{Json, Timestamp}
use researcher_agent_kube_en.Config.{Cli}
use researcher_agent_kube_en.Commands.{Surroundings, Subcommand, http, process}
use researcher_agent_kube_en.Commands.Console.{
  M, Console, Error, lift, lift-world, fetch, print, or_local, print_table,
}
use researcher_agent_kube_en.Commands.Facts.{local_facts, query_facts}
use researcher_agent_kube_en.Commands.History.{local_attempts, list_history, print_matches}
use researcher_agent_kube_en.Commands.History
use researcher_agent_kube_en.FactGraph.{VerificationAttempt}
use researcher_agent_kube_en.Commands.Vectors.{list_vectors}
use researcher_agent_kube_en.Commands.Pods.{
  ask_kubectl, pod_status, print_logs, first_logs, pod_logs,
}
use researcher_agent_kube_en.Commands.Execute.{dispatch, execute_subcommand}

-- The subcommands that `main` passes to `execute_subcommand`, all but `run`, without the two that change
-- the ledger.
abbrev pub IsQuery : {F : Type 0} → Subcommand F → Type 0
IsQuery (Subcommand.add_vector label content weight policy) = ⊥
IsQuery (Subcommand.neutralize id) = ⊥
IsQuery Subcommand.run = ⊥
IsQuery _ = Unit

-- What no GET request and no call of `kubectl` breaks.
pub record IsKept {F : Type 0} (env : Surroundings F) (P : env.fs.World → Type 0) : Type 0 where
  pub by_get : (url : Text) (w : env.fs.World) → P w → P (env.client.get url w).1
  pub by_kubectl : (args : List Text) (w : env.fs.World) → P w → P (env.kubectl args w).1

module _ {F : Type 0} (env : Surroundings F) (P : env.fs.World → Type 0) (kept : IsKept env P) where
  abbrev OnWorld : Console env → Type 0
  OnWorld (w, out) = P w

  Keeps-print : (lines : List Text) → Keeps OnWorld (print env lines)
  unfolding print
  Keeps-print lines = record { at = λ c h. h }

  Keeps-fetch : {A : Type 0} (js : Json A) (url : Text) → Keeps OnWorld (fetch env js url)
  unfolding fetch
  Keeps-fetch js url = record { at = λ c h. kept.by_get url c.0 h }

  Keeps-lift :
      {A E : Type 0} (wrap : E → Error env) (m : env.fs.World → Result A E × env.fs.World)
      → ((w : env.fs.World) → P w → P (m w).1)
      → Keeps OnWorld (lift env wrap m)
  Keeps-lift wrap m km = record {
    at = λ (w, out) h. subst P (sym (lift-world env wrap m w out)) (km w h);
  }

  -- A step that only looks at the world.
  Keeps-look :
      {A E : Type 0} (wrap : E → Error env) (look : env.fs.World → Result A E)
      → Keeps OnWorld (lift env wrap (λ w. (look w, w)))
  Keeps-look wrap look = Keeps-lift wrap (λ w. (look w, w)) (λ w h. h)

  Keeps-kubectl : (args : List Text) → Keeps OnWorld (ask_kubectl env args)
  Keeps-kubectl args = Keeps-lift process (env.kubectl args) (kept.by_kubectl args)

  Keeps-or_local :
      {A : Type 0} (o : Option A) (m : M env A) → Keeps OnWorld m → Keeps OnWorld (or_local env o m)
  unfolding pure
  Keeps-or_local (some a) m km = record { at = λ c h. h }
  Keeps-or_local none m km = km

  Keeps-print_table :
      {A : Type 0} (empty : Text) (header : List Text) (cells : A → List Text) (xs : List A)
      → Keeps OnWorld (print_table env empty header cells xs)
  unfolding print_table
  Keeps-print_table empty header cells [] = Keeps-print _
  Keeps-print_table empty header cells (x ∷ xs) = Keeps-print _

  ruleset look_rules = (
    keeps_rules, Keeps-print, Keeps-fetch, Keeps-look, Keeps-kubectl, Keeps-or_local,
    Keeps-print_table,
  )

  local_facts-Keeps : (cli : Cli F) → Keeps OnWorld (local_facts env cli)
  unfolding local_facts
  local_facts-Keeps cli = search look_rules

  query_facts-Keeps :
      (cli : Cli F) (tag backend : Option Text) (epoch : Option ℕ)
      → Keeps OnWorld (query_facts env cli tag backend epoch)
  unfolding query_facts
  query_facts-Keeps cli tag backend epoch = search (look_rules, local_facts-Keeps)

  local_attempts-Keeps : (cli : Cli F) → Keeps OnWorld (local_attempts env cli)
  unfolding local_attempts
  local_attempts-Keeps cli = search look_rules

  list_history-Keeps :
      (cli : Cli F) (backend status : Option Text) (epoch : Option ℕ)
      → Keeps OnWorld (list_history env cli backend status epoch)
  unfolding list_history
  list_history-Keeps cli backend status epoch = search (look_rules, local_attempts-Keeps)

  print_matches-Keeps :
      (hash : Text) (xs : List VerificationAttempt) → Keeps OnWorld (print_matches env hash xs)
  unfolding print_matches
  print_matches-Keeps hash [] = Keeps-print _
  print_matches-Keeps hash (x ∷ xs) = Keeps-print _

  search-Keeps : (cli : Cli F) (hash : Text) → Keeps OnWorld (History.search env cli hash)
  unfolding History.search
  search-Keeps cli hash = search (look_rules, local_attempts-Keeps, print_matches-Keeps)

  list_vectors-Keeps : (cli : Cli F) → Keeps OnWorld (list_vectors env cli)
  unfolding list_vectors
  list_vectors-Keeps cli = search look_rules

  first_logs-Keeps : (cli : Cli F) (tail name : Text) → Keeps OnWorld (first_logs env cli tail name)
  unfolding first_logs print_logs
  first_logs-Keeps cli tail [] = Keeps-print _
  first_logs-Keeps cli tail (c ∷ name) = search look_rules

  pod_logs-Keeps :
      (cli : Cli F) (pod_name : Option Text) (tail : Text)
      → Keeps OnWorld (pod_logs env cli pod_name tail)
  unfolding pod_logs print_logs
  pod_logs-Keeps cli (some name) tail = search look_rules
  pod_logs-Keeps cli none tail = search (look_rules, first_logs-Keeps)

  pod_status-Keeps : (cli : Cli F) → Keeps OnWorld (pod_status env cli)
  unfolding pod_status
  pod_status-Keeps cli = search look_rules

  dispatch-Keeps :
      (cli : Cli F) (id : Text) (now : Timestamp) (cmd : Subcommand F)
      → IsQuery cmd
      → Keeps OnWorld (dispatch env cli id now cmd)
  unfolding dispatch
  dispatch-Keeps cli id now Subcommand.run q = absurd q
  dispatch-Keeps cli id now (Subcommand.query_facts tag backend epoch) q =
      query_facts-Keeps cli tag backend epoch
  dispatch-Keeps cli id now (Subcommand.list_history backend status epoch) q =
      list_history-Keeps cli backend status epoch
  dispatch-Keeps cli id now (Subcommand.search hash) q = search-Keeps cli hash
  dispatch-Keeps cli id now Subcommand.list_vectors q = list_vectors-Keeps cli
  dispatch-Keeps cli id now Subcommand.help_guide q = Keeps-print _
  dispatch-Keeps cli id now Subcommand.pod_status q = pod_status-Keeps cli
  dispatch-Keeps cli id now (Subcommand.pod_logs pod_name tail) q = pod_logs-Keeps cli pod_name tail
  dispatch-Keeps cli id now (Subcommand.add_vector label content weight policy) q = absurd q
  dispatch-Keeps cli id now (Subcommand.neutralize target) q = absurd q

  -- Only `add-vector` and `neutralize` write among the subcommands other than `run`, which starts the
  -- daemon: any other, on every outcome, leaves whatever no GET request and no call of `kubectl` breaks,
  -- the files included if those do not touch them.
  pub execute_subcommand_reads :
      (cli : Cli F) (id : Text) (now : Timestamp) (cmd : Subcommand F) (w : env.fs.World)
      (out : List Text)
      → IsQuery cmd
      → P w
      → P (execute_subcommand env cli id now cmd (w, out)).1.0
  unfolding execute_subcommand
  execute_subcommand_reads cli id now cmd w out q h =
      (Keeps-bind _ _ (Keeps-look http (λ w. env.client.build))
          (λ u. dispatch-Keeps cli id now cmd q)).at
        (w, out) h

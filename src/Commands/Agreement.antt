-- ===== src/Commands/Agreement.antt =====
-- src/main.rs, the fallbacks of `list-history` and `search`, against the handlers in src/api.rs that
-- they stand in for.
use mathlib.Core.Option
use researcher_agent_kube_en.Base.{
  ◌<◌, ℕ, ◌==◌, ◌≡◌, refl, ap, sym, subst, ◌∙◌, Bool, true, false, not, List, [], ◌∷◌, ◌++◌, Option,
  none, some, Result, ok, Text, lit, text_eq, retain, if◌then◌else◌, arith,
}
use researcher_agent_kube_en.Base.Steps.{◌>>=◌, pure}
use researcher_agent_kube_en.Config.{Cli}
use researcher_agent_kube_en.FactGraph.{VerificationAttempt, load_fact_graph}
use researcher_agent_kube_en.Api.{AppState, HistoryQueryParams}
use researcher_agent_kube_en.Api.History.{
  retain_if, status_test, filter_attempts, search_history_by_hash,
}
use researcher_agent_kube_en.Api.History as Handler
use researcher_agent_kube_en.Base.Decimal.{decimal, u64_mod}
use researcher_agent_kube_en.Commands.Request.{
  PlainIfGiven, SmallIfGiven, AllPlain, pairs_of, history_address, params_of, history_url-address,
  AllPlain-pairs_of, params_of-pairs_of,
}
use researcher_agent_kube_en.Commands.{Surroundings}
use researcher_agent_kube_en.Commands.Console.{
  M, Error, Console, base_url, print_table, print, decode, lift, fetch-some, fetch-none,
  print_table-lines,
}
use researcher_agent_kube_en.Commands.History.{
  attempt_header, attempt_cells, filter_local, retain_status, local_attempts, print_matches,
  history_url, list_history, search,
}

retain_all {ℓ} : {A : Type ℓ} (xs : List A) → retain (λ x. true) xs ≡ xs
unfolding retain
retain_all [] = refl
retain_all (x ∷ xs) = ap (◌∷◌ x) (retain_all xs)

retain_branch :
    (good bad : Bool) (xs : List VerificationAttempt)
    → (if good
        then retain (λ a. a.success) xs
        else if bad
        then retain (λ a. not a.success) xs
        else xs)
      ≡ retain (λ a. if good then a.success else if bad then not a.success else true) xs
retain_branch true bad xs = refl
retain_branch false true xs = refl
retain_branch false false xs = sym (retain_all xs)

-- The `match` on the status that chooses a test, and the one that is inside the test.
retain_status-status_test :
    (s : Text) (xs : List VerificationAttempt) → retain_status s xs ≡ retain (status_test s) xs
unfolding retain_status status_test
retain_status-status_test s xs = retain_branch _ _ xs

filter_local-filter_attempts :
    (backend status : Option Text) (epoch : Option ℕ) (xs : List VerificationAttempt)
    → filter_local backend status epoch xs
      ≡ filter_attempts (record { backend = backend; status = status; epoch = epoch }) xs
unfolding filter_local filter_attempts retain_if
filter_local-filter_attempts backend none epoch xs = refl
filter_local-filter_attempts backend (some s) epoch xs =
    ap (retain_if epoch (λ ep a. a.epoch == ep)) (retain_status-status_test s _)

-- Two runs succeed, and have printed the same in the end.
abbrev pub SameLines :
    {F : Type 0} (env : Surroundings F)
    → (r s : Result (Unit {0}) (Error env) × Console env) → Type 0
SameLines env (r, (w, lines)) (s, (v, lines')) = (r ≡ ok tt) × (s ≡ ok tt) × (lines ≡ lines')

SameLines-≡ :
    {F : Type 0} (env : Surroundings F) {r r' s s' : Result (Unit {0}) (Error env) × Console env}
    → r ≡ r'
    → s ≡ s'
    → SameLines env r' s'
    → SameLines env r s
SameLines-≡ env {r' = r'} {s = s} e f h =
    subst (λ x. SameLines env x s) (sym e) (subst (λ x. SameLines env r' x) (sym f) h)

print_matches-lines :
    {F : Type 0} (env : Surroundings F) (hash : Text) (xs : List VerificationAttempt)
    (w w' : env.fs.World) (out : List Text)
    → SameLines env (print_matches env hash xs (w, out)) (print_matches env hash xs (w', out))
unfolding print_matches print
print_matches-lines env hash [] w w' out = (refl, refl, refl)
print_matches-lines env hash (x ∷ xs) w w' out = (refl, refl, refl)

module _ {V F : Type 0} (env : Surroundings F) (cli : Cli F) (state : AppState V F)
    (w1 w2 : env.fs.World) (out : List Text) where
  open env use {fs, client}

  -- What is done with the attempts of the file, once it is loaded.
  local_attempts_then :
      {B : Type 0} (f : List VerificationAttempt → List VerificationAttempt)
      (k : List VerificationAttempt → M env B) (w : fs.World)
      → load_fact_graph fs env.graph cli.fact_graph_path w ≡ ok state.fact_graph
      → ((local_attempts env cli >>= λ local. pure (ok (f local))) >>= k) (w, out)
        ≡ k (f state.fact_graph.attempts) (w, out)
  unfolding local_attempts ◌>>=◌ lift pure
  local_attempts_then f k w loaded = ground arith

  -- The runs at a URL where the daemon answers what its handler gives for the options.
  answered_alike :
      (backend status : Option Text) (epoch : Option ℕ)
      → let url = history_url cli backend status epoch in
        let params : HistoryQueryParams = record {
          backend = backend;
          status = status;
          epoch = epoch;
        } in
        decode env env.attempts (client.get url w1).0 ≡ some (Handler.list_history state params)
        → decode env env.attempts (client.get url w2).0 ≡ none
        → load_fact_graph fs env.graph cli.fact_graph_path (client.get url w2).1
          ≡ ok state.fact_graph
        → SameLines env
            (list_history env cli backend status epoch (w1, out))
            (list_history env cli backend status epoch (w2, out))
  unfolding list_history Handler.list_history
  answered_alike backend status epoch answered unanswered loaded =
      let url = history_url cli backend status epoch in
      let show =
        print_table env (lit "No verification attempts found matching criteria.") attempt_header
          (attempt_cells env) in
      let w3 = (client.get url w2).1 in
      let online = fetch-some env env.attempts url _ show w1 out _ answered in
      let offline =
        fetch-none env env.attempts url _ show w2 out unanswered
        ∙ local_attempts_then (filter_local backend status epoch) show w3 loaded
        ∙ ap (λ xs. show xs (w3, out)) (filter_local-filter_attempts backend status epoch _) in
      SameLines-≡ env online offline
        (print_table-lines env _ attempt_header (attempt_cells env) _ (client.get url w1).1 w3 out)

  -- `list-history` prints the same without the daemon as with it. The runs succeed with the same lines
  -- if the backend and the status that are given need no escape in a URL, the epoch is a `u64`, the
  -- daemon answers a GET of its history with what its handler gives for the parameters that the pairs of the
  -- query name (and not at all well if their epoch is no number), parsing undoes the print of a
  -- `u64`, and the file holds the daemon's graph where the daemon gives no good answer.
  pub list_history-agrees :
      (parse_u64 : Text → Option ℕ) (backend status : Option Text) (epoch : Option ℕ)
      → PlainIfGiven backend
      → PlainIfGiven status
      → SmallIfGiven epoch
      → ((n : ℕ) → n < u64_mod → parse_u64 (decimal n) ≡ some n)
      → let pairs = pairs_of backend status epoch in
        (AllPlain pairs
          → decode env env.attempts (client.get (history_address cli pairs) w1).0
            ≡ Option.map (Handler.list_history state) (params_of parse_u64 pairs))
        → decode env env.attempts (client.get (history_address cli pairs) w2).0 ≡ none
        → load_fact_graph fs env.graph cli.fact_graph_path
            (client.get (history_address cli pairs) w2).1
          ≡ ok state.fact_graph
        → SameLines env
            (list_history env cli backend status epoch (w1, out))
            (list_history env cli backend status epoch (w2, out))
  list_history-agrees parse_u64 backend status epoch plain_backend plain_status small reads served
        unanswered loaded =
      let pairs = pairs_of backend status epoch in
      let asked = history_url-address cli backend status epoch in
      let read = params_of-pairs_of parse_u64 backend status epoch reads small in
      let answered =
        ap (λ url. decode env env.attempts (client.get url w1).0) asked
        ∙ served (AllPlain-pairs_of backend status epoch plain_backend plain_status)
        ∙ ap (Option.map (Handler.list_history state)) read in
      answered_alike backend status epoch answered
        (ap (λ url. decode env env.attempts (client.get url w2).0) asked ∙ unanswered)
        (ap (λ url. load_fact_graph fs env.graph cli.fact_graph_path (client.get url w2).1) asked
          ∙ loaded)

  -- `search` likewise.
  pub search-agrees :
      (hash : Text)
      → let url = base_url cli ++ (lit "/api/v1/history/search/" ++ hash) in
        decode env env.attempts (client.get url w1).0 ≡ some (search_history_by_hash state hash)
        → decode env env.attempts (client.get url w2).0 ≡ none
        → load_fact_graph fs env.graph cli.fact_graph_path (client.get url w2).1
          ≡ ok state.fact_graph
        → SameLines env (search env cli hash (w1, out)) (search env cli hash (w2, out))
  unfolding search search_history_by_hash
  search-agrees hash answered unanswered loaded =
      let url = base_url cli ++ (lit "/api/v1/history/search/" ++ hash) in
      let w3 = (client.get url w2).1 in
      let online = fetch-some env env.attempts url _ (print_matches env hash) w1 out _ answered in
      let offline =
        fetch-none env env.attempts url _ (print_matches env hash) w2 out unanswered
        ∙ local_attempts_then (retain (λ a. text_eq a.payload_hash hash)) (print_matches env hash)
            w3 loaded in
      SameLines-≡ env online offline (print_matches-lines env hash _ (client.get url w1).1 w3 out)

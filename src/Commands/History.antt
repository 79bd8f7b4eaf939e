-- ===== src/Commands/History.antt =====
-- src/main.rs, the subcommands `list-history` and `search`.
use researcher_agent_kube_en.Base.{
  ℕ, ◌==◌, ◌+◌, Bool, true, false, not, ◌||◌, List, [], ◌∷◌, ◌++◌, map, Option, none, some, ok,
  Text, lit, text_eq, retain, if◌then◌else◌,
}
use researcher_agent_kube_en.Base.Strings.{join, trim}
use researcher_agent_kube_en.Base.Steps.{◌>>=◌, pure}
use researcher_agent_kube_en.Base.Decimal.{decimal}
use researcher_agent_kube_en.Config.{Cli}
use researcher_agent_kube_en.FactGraph.{VerificationAttempt, load_fact_graph, is_empty}
use researcher_agent_kube_en.Api.History.{retain_if}
use researcher_agent_kube_en.Commands.{Surroundings, fact_graph}
use researcher_agent_kube_en.Commands.Console.{
  M, lift, fetch, print, or_local, print_table, pad, base_url,
}

-- `queries.push(format!("{}={}", …))`, if the option is given.
abbrev pub query : {A : Type 0} → Text → (A → Text) → Option A → List Text
query name show none = []
query name show (some a) = (name ++ b'=' ∷ show a) ∷ []

abbrev pub with_queries : Text → List Text → Text
with_queries url [] = url
with_queries url (q ∷ qs) = url ++ b'?' ∷ join (lit "&") (q ∷ qs)

unfoldable pub history_url :
    {F : Type 0} → Cli F → (backend status : Option Text) (epoch : Option ℕ) → Text
history_url cli backend status epoch = with_queries (base_url cli ++ lit "/api/v1/history") (
    query (lit "backend") (λ b. b) backend
    ++ (query (lit "status") (λ s. s) status ++ query (lit "epoch") decimal epoch))

-- The `match` on the status: the attempts that are kept.
unfoldable pub retain_status : Text → List VerificationAttempt → List VerificationAttempt
retain_status s attempts =
    if text_eq s (lit "passed") || text_eq s (lit "success") || text_eq s (lit "true")
    then retain (λ a. a.success) attempts
    else if text_eq s (lit "failed") || text_eq s (lit "failure") || text_eq s (lit "false")
    then retain (λ a. not a.success) attempts
    else attempts

abbrev retain_status_if : Option Text → List VerificationAttempt → List VerificationAttempt
retain_status_if none attempts = attempts
retain_status_if (some s) attempts = retain_status s attempts

-- The filters of the local fallback.
unfoldable pub filter_local :
    (backend status : Option Text) (epoch : Option ℕ)
    → List VerificationAttempt
    → List VerificationAttempt
unfolding retain_if retain_status
filter_local backend status epoch local =
    retain_if epoch (λ ep a. a.epoch == ep)
      (retain_status_if status (retain_if backend (λ b a. text_eq a.backend b) local))

abbrev pub attempt_header : List Text
unfolding pad
attempt_header =
    pad 36 (lit "ID")
    ∷ pad 10 (lit "BACKEND")
    ∷ pad 5 (lit "EPOCH")
    ∷ pad 7 (lit "STATUS")
    ∷ pad 20 (lit "SUBMITTED AT")
    ∷ lit "HASH"
    ∷ []

abbrev pub status_text : Bool → Text
status_text true = lit "PASSED"
status_text false = lit "FAILED"

-- The ruler around a match, of 80 characters.
abbrev ruler : Text
ruler = lit "================================================================================"

-- A section of a match, if there is anything in it.
abbrev section_of : Text → Text → List Text
section_of title s = if is_empty s then [] else [] ∷ title ∷ trim s ∷ []

abbrev goal_lines : List Text → List Text
goal_lines [] = []
goal_lines (g ∷ gs) = [] ∷ lit "--- TACTIC GOALS ---" ∷ map (λ goal. lit "  " ++ goal) (g ∷ gs)

abbrev error_lines : Option Text → List Text
error_lines none = []
error_lines (some e) = (lit "Error Msg:    " ++ e) ∷ []

module _ {F : Type 0} (env : Surroundings F) where
  open env use {fs}

  unfoldable pub attempt_cells : VerificationAttempt → List Text
  unfolding pad
  attempt_cells a =
      pad 36 a.id
      ∷ pad 10 a.backend
      ∷ pad 5 (decimal a.epoch)
      ∷ pad 7 (status_text a.success)
      ∷ pad 20 (env.show_time a.submitted_at)
      ∷ a.payload_hash
      ∷ []

  -- The log of attempts in the file.
  unfoldable pub local_attempts : Cli F → M env (List VerificationAttempt)
  local_attempts cli = do
    fg ← lift env fact_graph (λ w. (load_fact_graph fs env.graph cli.fact_graph_path w, w))
    pure (ok fg.attempts)

  unfoldable pub list_history :
      Cli F → (backend status : Option Text) (epoch : Option ℕ) → M env (Unit {0})
  unfolding attempt_header local_attempts filter_local attempt_cells history_url
  list_history cli backend status epoch = do
    fetched ← fetch env env.attempts (history_url cli backend status epoch)
    attempts ←
        or_local env fetched
          (do local ← local_attempts cli; pure (ok (filter_local backend status epoch local)))
    print_table env (lit "No verification attempts found matching criteria.") attempt_header
        attempt_cells attempts

  -- What is printed of the `i`th match.
  unfoldable pub match_lines : ℕ → VerificationAttempt → List Text
  match_lines i a =
      (lit "Match #" ++ (decimal (i + 1) ++ (lit " (ID: " ++ (a.id ++ lit ")"))))
      ∷ ruler
      ∷ (lit "Submitted At: " ++ env.show_time a.submitted_at)
      ∷ (lit "Epoch:        " ++ decimal a.epoch)
      ∷ (lit "Backend:      " ++ a.backend)
      ∷ (lit "Status:       " ++ status_text a.success)
      ∷ (lit "Tags:         " ++ env.show_tags a.tags)
      ∷ (error_lines a.error_message
          ++ ([]
              ∷ lit "--- STDIN / PAYLOAD ---"
              ∷ trim a.payload
              ∷ (section_of (lit "--- STDOUT ---") a.stdout
                  ++ (section_of (lit "--- STDERR ---") a.stderr
                      ++ (goal_lines a.tactic_goals ++ ruler ∷ [] ∷ [])))))

  unfoldable pub matches_from : ℕ → List VerificationAttempt → List Text
  unfolding match_lines
  matches_from i [] = []
  matches_from i (a ∷ attempts) = match_lines i a ++ matches_from (i + 1) attempts

  unfoldable pub print_matches : Text → List VerificationAttempt → M env (Unit {0})
  unfolding matches_from
  print_matches hash [] =
      print env
        ((lit "No theories, findings, or verification attempts found for hash: " ++ hash) ∷ [])
  print_matches hash (a ∷ attempts) = print env (matches_from 0 (a ∷ attempts))

  unfoldable pub search : Cli F → Text → M env (Unit {0})
  unfolding local_attempts print_matches
  search cli hash = do
    fetched ← fetch env env.attempts (base_url cli ++ (lit "/api/v1/history/search/" ++ hash))
    attempts ←
        or_local env fetched (do
          local ← local_attempts cli
          pure (ok (retain (λ a. text_eq a.payload_hash hash) local)))
    print_matches hash attempts

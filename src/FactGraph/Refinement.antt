-- ===== src/FactGraph/Refinement.antt =====
-- src/fact_graph.rs: the store as an abstract one, a function from hashes to facts and a log, over any
-- sequence of commits and attempts.
use mathlib.Core.Path.{fun_ext}
use researcher_agent_kube_en.Base.{
  ℕ, ◌≡◌, refl, ap, ◌∙◌, Bool, List, [], ◌∷◌, ◌++◌, Option, some, Text, text_eq, if◌then◌else◌,
  unwrap_or,
}
use researcher_agent_kube_en.Base.Maps.{lookup}
use researcher_agent_kube_en.Platform.{Digest, Json, Timestamp, hash_hex}
use researcher_agent_kube_en.Platform
use researcher_agent_kube_en.FactGraph.{
  FactGraph, FactNode, VerificationAttempt, fact_node, commit_fact, log_attempt,
}
use researcher_agent_kube_en.FactGraph.Facts.{commit_fact-lookup, commit_fact-attempts}

-- A call of one of the two functions that change the store, with what it draws.
pub data Call : Type 0 where
  commit :
      (backend payload : Text) (epoch : ℕ) (tags : List Text) (id : Text) (now : Timestamp) → Call
  log :
      (backend payload : Text) (success : Bool) (stdout stderr : Text) (goals : List Text)
      (error_message : Option Text) (epoch : ℕ) (tags : List Text) (id : Text) (now : Timestamp)
      → Call

-- What the store promises: facts by hash, and the log in order.
pub record Store : Type 0 where
  pub facts : Text → Option FactNode
  pub log : List VerificationAttempt

abbrev pub view : FactGraph → Store
view g = record { facts = λ hash. lookup hash g.nodes; log = g.attempts }

module _ (d : Digest) where
  -- A payload's first fact is the one that stays; an attempt is appended.
  unfoldable pub perform : Call → Store → Store
  unfolding fact_node
  perform (commit backend payload epoch tags id now) s = record s {
    facts = λ hash.
        if text_eq (hash_hex d payload) hash
        then some (unwrap_or (s.facts hash) (fact_node d backend payload epoch tags id now))
        else s.facts hash;
  }
  perform (log backend payload success stdout stderr goals error_message epoch tags id now) s =
      record s {
        log =
            s.log
            ++ record {
              id = id;
              payload = payload;
              payload_hash = hash_hex d payload;
              backend = backend;
              success = success;
              stdout = stdout;
              stderr = stderr;
              tactic_goals = goals;
              error_message = error_message;
              submitted_at = now;
              epoch = epoch;
              tags = tags;
            }
              ∷ [];
      }

  abbrev pub perform_all : List Call → Store → Store
  perform_all [] s = s
  perform_all (c ∷ cs) s = perform_all cs (perform c s)

  module _ (fs : Platform.Files) (js : Json FactGraph) where
    -- The call in the code, with the files.
    unfoldable pub run_call : Call → FactGraph × fs.World → FactGraph × fs.World
    unfolding commit_fact log_attempt
    run_call (commit backend payload epoch tags id now) (g, w) =
        let (r, g', w') = commit_fact fs js d g backend payload epoch tags id now w in (g', w')
    run_call (log backend payload success stdout stderr goals error_message epoch tags id now)
          (g, w) =
        let (r, g', w') =
          log_attempt fs js d g backend payload success stdout stderr goals error_message epoch tags
            id now w in
        (g', w')

    unfoldable pub run_calls : List Call → FactGraph × fs.World → FactGraph × fs.World
    run_calls [] s = s
    run_calls (c ∷ cs) s = run_calls cs (run_call c s)

    view-run_call :
        (c : Call) (g : FactGraph) (w : fs.World) → view (run_call c (g, w)).0 ≡ perform c (view g)
    unfolding run_call perform log_attempt
    view-run_call (commit backend payload epoch tags id now) g w =
        let found = fun_ext (commit_fact-lookup fs js d g backend payload epoch tags id now w) in
        let logged = commit_fact-attempts fs js d g backend payload epoch tags id now w in
        λ i. record { facts = found i; log = logged i }
    view-run_call (log backend payload success stdout stderr goals error_message epoch tags id now)
          g w =
        refl

    -- Over any sequence of commits and attempts the graph is the abstract store, whichever of the saves
    -- succeed: under each hash the first fact of a payload with it, and every attempt in its order.
    pub view-run_calls :
        (calls : List Call) (g : FactGraph) (w : fs.World)
        → view (run_calls calls (g, w)).0 ≡ perform_all calls (view g)
    unfolding run_calls
    view-run_calls [] g w = refl
    view-run_calls (c ∷ cs) g w =
        let (g', w') = run_call c (g, w) in
        view-run_calls cs g' w' ∙ ap (perform_all cs) (view-run_call c g w)

-- ===== src/FactGraph.antt =====
-- src/fact_graph.rs: the store of verified facts, indexed by the hash of their payload, and the log of
-- all verification attempts. A function that changes the graph or the files returns both anew. The
-- identifier that `Uuid::new_v4` draws and the time are the arguments `id` and `now`.
pub mod Facts
pub mod Attempts
pub mod Persistence
pub mod Queries
pub mod Refinement
use researcher_agent_kube_en.Base.{
  ℕ, Bool, true, false, not, ◌||◌, List, [], ◌∷◌, ◌++◌, Option, none, some, Result, ok, err,
  map_err, ◌>>=◌, Text, text_eq, Map, take, retain, any, if◌then◌else◌, is_some, unwrap_or,
}
use researcher_agent_kube_en.Base.Maps.{lookup, contains_key, insert, values}
use researcher_agent_kube_en.Platform.{Digest, Json, Timestamp, hash_hex}
use researcher_agent_kube_en.Platform

pub record FactNode : Type 0 where
  pub id : Text
  pub proof_hash : Text
  pub payload_summary : Text
  pub backend : Text
  pub verified_at : Timestamp
  pub epoch : ℕ  -- u64
  pub tags : List Text

pub record VerificationAttempt : Type 0 where
  pub id : Text
  pub payload : Text
  pub payload_hash : Text
  pub backend : Text
  pub success : Bool
  pub stdout : Text
  pub stderr : Text
  pub tactic_goals : List Text
  pub error_message : Option Text
  pub submitted_at : Timestamp
  pub epoch : ℕ  -- u64
  pub tags : List Text

pub record FactGraph : Type 0 where
  pub nodes : Map FactNode
  pub attempts : List VerificationAttempt
  pub path : Text

pub data FactGraphError (Io Serde : Type 0) : Type 0 where
  io : Io → FactGraphError Io Serde
  serde : Serde → FactGraphError Io Serde

-- `FactGraph::new`
unfoldable pub new : Text → FactGraph
new path = record { nodes = []; attempts = []; path = path }

unfoldable pub ephemeral : FactGraph
unfolding new
ephemeral = new []

-- `is_empty` of a text.
abbrev pub is_empty : Text → Bool
is_empty [] = true
is_empty (c ∷ s) = false

-- `unwrap_or(false)`
abbrev pub ok_or_false : {E : Type 0} → Result Bool E → Bool
ok_or_false (ok b) = b
ok_or_false (err e) = false

unfoldable pub query_by_tag : FactGraph → Text → List FactNode
query_by_tag graph tag = retain (λ n. any (λ t. text_eq t tag) n.tags) (values graph.nodes)

unfoldable pub contains_hash : FactGraph → Text → Bool
contains_hash graph hash = contains_key hash graph.nodes

-- The node that `commit_fact` makes.
unfoldable pub fact_node : Digest → Text → Text → ℕ → List Text → Text → Timestamp → FactNode
fact_node d backend payload epoch tags id now = record {
  id = id;
  proof_hash = hash_hex d payload;
  payload_summary = take 256 payload;
  backend = backend;
  verified_at = now;
  epoch = epoch;
  tags = tags;
}

module _ (fs : Platform.Files) (js : Json FactGraph) where
  open fs use {World, IoError, try_exists, read_to_string, write}
  open js use {SerdeError, to_string, from_str}

  abbrev pub Error : Type 0
  Error = FactGraphError IoError SerdeError

  unfoldable pub load_fact_graph : Text → World → Result FactGraph Error
  unfolding new
  load_fact_graph path w =
      if is_empty path || not (ok_or_false (try_exists path w)) then ok (new path) else do
        raw ← map_err {F = Error} io (read_to_string path w)
        graph ← map_err {F = Error} serde (from_str raw)
        ok (record graph { path = path })

  -- `serde_json::to_string_pretty(graph)?`, then the write.
  unfoldable pub write_json :
      Text → Result Text SerdeError → World → Result (Unit {0}) Error × World
  write_json path (err e) w = (err (serde e), w)
  write_json path (ok json) w = let (r, w') = write path json w in (map_err {F = Error} io r, w')

  unfoldable pub save_fact_graph : FactGraph → World → Result (Unit {0}) Error × World
  unfolding write_json
  save_fact_graph graph w =
      if is_empty graph.path then (ok tt, w) else write_json graph.path (to_string graph) w

  module _ (d : Digest) where
    unfoldable pub commit_fact :
        FactGraph
        → (backend payload : Text) (epoch : ℕ) (tags : List Text) (id : Text) (now : Timestamp)
        → World
        → Result (Option Text) Error × FactGraph × World
    unfolding fact_node
    commit_fact graph backend payload epoch tags id now w =
        let proof_hash = hash_hex d payload in
        let node = fact_node d backend payload epoch tags id now in
        let committed = record graph { nodes = insert proof_hash node graph.nodes } in
        let (saved, w') = save_fact_graph committed w in
        if contains_key proof_hash graph.nodes
        then (ok none, graph, w)
        else (saved >>= λ _. ok (some proof_hash), committed, w')

    -- The outcome of a run that `log_attempt` is given, field by field.
    unfoldable pub log_attempt :
        FactGraph
        → (backend payload : Text) (success : Bool) (stdout stderr : Text)
        → (tactic_goals : List Text) (error_message : Option Text) (epoch : ℕ) (tags : List Text)
        → (id : Text) (now : Timestamp) → World
        → Result Text Error × FactGraph × World
    log_attempt graph backend payload success stdout stderr goals error_message epoch tags id now
          w =
        let proof_hash = hash_hex d payload in
        let attempt : VerificationAttempt = record {
          id = id;
          payload = payload;
          payload_hash = proof_hash;
          backend = backend;
          success = success;
          stdout = stdout;
          stderr = stderr;
          tactic_goals = goals;
          error_message = error_message;
          submitted_at = now;
          epoch = epoch;
          tags = tags;
        } in
        let logged = record graph { attempts = graph.attempts ++ attempt ∷ [] } in
        let (saved, w') = save_fact_graph logged w in (saved >>= λ _. ok proof_hash, logged, w')

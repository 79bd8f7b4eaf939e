-- ===== src/FactGraph/Attempts.antt =====
-- src/fact_graph.rs, `log_attempt`: the audit trail.
use researcher_agent_kube_en.Base.{ℕ, ◌≡◌, refl, Bool, List, [], ◌∷◌, ◌++◌, Option, ok, ◌>>=◌, Text}
use researcher_agent_kube_en.Platform.{Digest, Json, Timestamp, hash_hex}
use researcher_agent_kube_en.Platform
use researcher_agent_kube_en.FactGraph.{
  FactGraph, VerificationAttempt, log_attempt, save_fact_graph,
}

module _ (fs : Platform.Files) (js : Json FactGraph) (d : Digest) (g : FactGraph)
    (backend payload : Text) (success : Bool) (stdout stderr : Text) (goals : List Text)
    (error_message : Option Text) (epoch : ℕ) (tags : List Text) (id : Text) (now : Timestamp)
    (w : fs.World) where
  -- On every outcome the log grows by exactly one attempt, at its end, which holds the payload under
  -- its hash and the result; the facts stay as they were. The answer is the hash, or the save's error.
  pub log_attempt-appends :
      let (r, g', w') =
        log_attempt fs js d g backend payload success stdout stderr goals error_message epoch tags
          id now w in
      (a : VerificationAttempt) × (g'.attempts ≡ g.attempts ++ a ∷ [])
      × (a.payload ≡ payload)
      × (a.payload_hash ≡ hash_hex d payload)
      × (a.success ≡ success)
      × (a.error_message ≡ error_message)
      × (g'.nodes ≡ g.nodes)
      × (r ≡ (save_fact_graph fs js g' w).0 >>= λ _. ok (hash_hex d payload))
      × (w' ≡ (save_fact_graph fs js g' w).1)
  unfolding log_attempt
  log_attempt-appends = (_, refl, refl, refl, refl, refl, refl, refl, refl)

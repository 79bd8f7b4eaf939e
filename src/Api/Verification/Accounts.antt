-- ===== src/Api/Verification/Accounts.antt =====
-- src/api.rs, `api_verify` without other tasks: all that a request leaves behind, by its answer.
use researcher_agent_kube_en.Base.{
  ◌≡◌, refl, ◌&&◌, ◌++◌, [], ◌∷◌, some, Result, ok, err, Text, unwrap_or, arith, text_eq,
  if◌then◌else◌, Bool-cases, inl, inr, take,
}
use researcher_agent_kube_en.Base.Maps.{lookup}
use researcher_agent_kube_en.Platform.{Digest, Files, Json, hash_hex}
use researcher_agent_kube_en.Platform.Subprocess.{Subprocess}
use researcher_agent_kube_en.FactGraph.{
  FactGraph, FactNode, VerificationAttempt, fact_node, log_attempt,
}
use researcher_agent_kube_en.FactGraph.Facts.{commit_fact-lookup, commit_fact-attempts}
use researcher_agent_kube_en.Verify.{VerifierBackend, VerificationResult}
use researcher_agent_kube_en.Api.{AppState, ApiError, VerifyApiRequest, VerifyApiResponse}
use researcher_agent_kube_en.Api.Verification.{
  Draws, Shared, backend_of, log_result, commit_result, record_result, verify_and_record,
  api_verify,
}

module _ (d : Digest) where
  -- The attempt that a response tells of, and the fact that a success makes.
  abbrev pub told_attempt : VerifyApiRequest → Draws → VerifyApiResponse → VerificationAttempt
  told_attempt req draws resp = record {
    id = draws.attempt_id;
    payload = req.payload;
    payload_hash = hash_hex d req.payload;
    backend = resp.backend;
    success = resp.success;
    stdout = resp.stdout;
    stderr = resp.stderr;
    tactic_goals = resp.tactic_goals;
    error_message = resp.error_message;
    submitted_at = draws.submitted_at;
    epoch = unwrap_or req.epoch 0;
    tags = req.fact_tags;
  }

  abbrev pub told_fact : VerifyApiRequest → Draws → VerifyApiResponse → FactNode
  told_fact req draws resp = record {
    id = draws.fact_id;
    proof_hash = hash_hex d req.payload;
    payload_summary = take 256 req.payload;
    backend = resp.backend;
    verified_at = draws.verified_at;
    epoch = unwrap_or req.epoch 0;
    tags = req.fact_tags;
  }

  -- A response: the log has its attempt at the end, and the payload of a success is a fact, an older one
  -- if there was one; no other fact changes. An error: the graph is as it was.
  abbrev pub Accounted :
      VerifyApiRequest
      → Draws
      → Result VerifyApiResponse ApiError
      → (before after : FactGraph) → Type 0
  Accounted req draws (ok resp) before after =
      (after.attempts ≡ before.attempts ++ told_attempt req draws resp ∷ [])
      × ((hash : Text)
          → lookup hash after.nodes ≡ (
              if resp.success && text_eq (hash_hex d req.payload) hash
              then some (unwrap_or (lookup hash before.nodes) (told_fact req draws resp))
              else lookup hash before.nodes))
  Accounted req draws (err e) before after = after ≡ before

module _ (d : Digest) (fs : Files) (sp : Subprocess fs.World fs.IoError) (js : Json FactGraph) where
  commit_result-attempts :
      (req : VerifyApiRequest) (result : VerificationResult) (draws : Draws) (s : Shared d fs sp js)
      → (commit_result d fs sp js req result draws s).1.0.attempts ≡ s.0.attempts
  unfolding commit_result
  commit_result-attempts req result draws (g, w) = ground (
    arith,
    commit_fact-attempts fs js d g result.backend req.payload (unwrap_or req.epoch 0) req.fact_tags
        draws.fact_id draws.verified_at w,
  )

  commit_result-lookup :
      (req : VerifyApiRequest) (result : VerificationResult) (draws : Draws) (s : Shared d fs sp js)
      (hash : Text)
      → lookup hash (commit_result d fs sp js req result draws s).1.0.nodes ≡ (
          if result.success && text_eq (hash_hex d req.payload) hash
          then some (
              unwrap_or (lookup hash s.0.nodes) (
                fact_node d result.backend req.payload
                  (unwrap_or req.epoch 0)
                  req.fact_tags
                  draws.fact_id
                  draws.verified_at))
          else lookup hash s.0.nodes)
  unfolding commit_result
  commit_result-lookup req result draws (g, w) hash =
      let found =
        commit_fact-lookup fs js d g result.backend req.payload (unwrap_or req.epoch 0)
          req.fact_tags draws.fact_id draws.verified_at w hash in
      elim (Bool-cases result.success) [ inl good ↦ rw good found | inr bad ↦ rw bad refl ]

  record_result-Accounted :
      (req : VerifyApiRequest) (draws : Draws) (verified : Result VerificationResult ApiError)
      (graph : FactGraph) (w : fs.World)
      → let (r, shared) =
          record_result d fs sp js req draws (λ x. x) (λ x. x) verified (graph, w) in
        Accounted d req draws r graph shared.0
  unfolding record_result log_result log_attempt fact_node
  record_result-Accounted req draws (err e) graph w = refl
  record_result-Accounted req draws (ok result) graph w =
      let logged = log_result d fs sp js req result draws (graph, w) in
      (
        commit_result-attempts req result draws logged,
        λ hash. commit_result-lookup req result draws logged hash,
      )

  verify_and_record-Accounted :
      {V F : Type 0} (state : AppState V F) (req : VerifyApiRequest) (draws : Draws)
      (backend : Result VerifierBackend ApiError) (w : fs.World)
      → let (r, state', w') =
          verify_and_record d fs sp js state req draws (λ x. x) (λ x. x) backend w in
        Accounted d req draws r state.fact_graph state'.fact_graph
        × (state' ≡ record state { fact_graph = state'.fact_graph })
  unfolding verify_and_record
  verify_and_record-Accounted state req draws (err e) w = (refl, refl)
  verify_and_record-Accounted state req draws (ok backend) w =
      (record_result-Accounted req draws _ state.fact_graph _, refl)

  -- A request to verify that no other task disturbs is accounted for. If it is answered by a response,
  -- the log has grown by one attempt at its end, which holds the payload, its hash and what the response
  -- says of the run; the payload of a success is a fact afterwards, the older one if its hash was
  -- known, and no other fact has changed, none at all by a failure. If it is answered by an error, the
  -- graph is as it was. On either outcome the rest of the server's state stays.
  pub api_verify-accounts :
      {V F : Type 0} (state : AppState V F) (req : VerifyApiRequest) (draws : Draws) (w : fs.World)
      → let (r, state', w') = api_verify d fs sp js state req draws (λ x. x) (λ x. x) w in
        Accounted d req draws r state.fact_graph state'.fact_graph
        × (state' ≡ record state { fact_graph = state'.fact_graph })
  unfolding api_verify
  api_verify-accounts state req draws w =
      verify_and_record-Accounted state req draws (backend_of req) w

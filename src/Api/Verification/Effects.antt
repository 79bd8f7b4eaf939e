-- ===== src/Api/Verification/Effects.antt =====
-- src/api.rs, `api_verify`: what a request leaves in the graph of facts, and what it answers.
use researcher_agent_kube_en.Base.{
  ◌≡◌, refl, ap, sym, ◌∙◌, ◌≢◌, true, ◌++◌, some, Result, ok, err, Text, lit, unwrap_or, arith,
  length, ◌+◌, length-append, text_eq_refl, text_eq_iff,
}
use researcher_agent_kube_en.Platform.{Digest, Files, Json, hash_hex}
use researcher_agent_kube_en.Platform.Subprocess.{Subprocess}
use researcher_agent_kube_en.FactGraph.{FactGraph, log_attempt, contains_hash}
use researcher_agent_kube_en.FactGraph.Facts.{contains_hash-commit_fact, commit_fact-hash}
use researcher_agent_kube_en.Verify.{VerifierBackend, VerificationResult}
use researcher_agent_kube_en.Api.{AppState, ApiError, rejected, VerifyApiRequest, VerifyApiResponse}
use researcher_agent_kube_en.Api.Verification.{
  Draws, Shared, backend_of, log_result, commit_result, record_result, verify_and_record,
  api_verify, response,
}

module _ (d : Digest) (fs : Files) (sp : Subprocess fs.World fs.IoError) (js : Json FactGraph) where
  -- A request whose backend is none of the three is rejected: nothing is run, logged or written.
  pub api_verify-unknown_backend :
      {V F : Type 0} (state : AppState V F) (req : VerifyApiRequest) (draws : Draws)
      (before_log before_commit : Shared d fs sp js → Shared d fs sp js) (w : fs.World)
      → req.backend ≢ lit "lean4"
      → req.backend ≢ lit "z3"
      → req.backend ≢ lit "sandbox"
      → (message : Text) × (api_verify d fs sp js state req draws before_log before_commit w
          ≡ (err (rejected message), state, w))
  unfolding api_verify
  api_verify-unknown_backend state req draws before_log before_commit w a b c = (
    lit "Unknown backend: " ++ (req.backend ++ lit ". Valid: lean4, z3, sandbox"),
    ground (
      arith,
      text_eq_iff req.backend (lit "lean4"),
      text_eq_iff req.backend (lit "z3"),
      text_eq_iff req.backend (lit "sandbox"),
    ),
  )

  -- The log grows by one attempt, whose hash and success are the payload's and the result's, and the
  -- facts stay.
  log_result-attempts :
      (req : VerifyApiRequest) (result : VerificationResult) (draws : Draws)
      (shared : Shared d fs sp js)
      → let (graph, w) = log_result d fs sp js req result draws shared in
        (length graph.attempts ≡ length shared.0.attempts + 1) × (graph.nodes ≡ shared.0.nodes)
  unfolding log_result log_attempt
  log_result-attempts req result draws shared = (length-append shared.0.attempts _, refl)

  -- A fact hash in the response is that of the payload, and stands for a success that the graph now
  -- contains.
  pub commit_result_hash :
      (req : VerifyApiRequest) (result : VerificationResult) (draws : Draws)
      (shared : Shared d fs sp js) (hash : Text)
      → (commit_result d fs sp js req result draws shared).0 ≡ some hash
      → (hash ≡ hash_hex d req.payload)
        × (result.success ≡ true)
        × (contains_hash (commit_result d fs sp js req result draws shared).1.0 hash ≡ true)
  unfolding commit_result
  commit_result_hash req result draws (graph, w) hash e =
      let epoch = unwrap_or req.epoch 0 in
      let known =
        contains_hash-commit_fact fs js d graph result.backend req.payload epoch req.fact_tags
          draws.fact_id draws.verified_at w hash in
      let named =
        commit_fact-hash fs js d graph result.backend req.payload epoch req.fact_tags draws.fact_id
          draws.verified_at w hash in
      ground (arith, known, named, text_eq_refl (hash_hex d req.payload))

  -- What a response and the graph behind it are made of: some result, logged and committed.
  abbrev pub Recorded :
      VerifyApiRequest
      → Draws
      → (before_log before_commit : Shared d fs sp js → Shared d fs sp js) → VerifyApiResponse
      → FactGraph
      → Type 0
  Recorded req draws before_log before_commit resp graph =
      (result : VerificationResult) × (start : Shared d fs sp js) × (resp
        ≡ response d fs sp js result
            (commit_result d fs sp js req result draws
              (before_commit (log_result d fs sp js req result draws (before_log start)))).0)
      × (graph
          ≡ (commit_result d fs sp js req result draws
              (before_commit (log_result d fs sp js req result draws (before_log start)))).1.0)

  record_result-ok :
      (req : VerifyApiRequest) (draws : Draws)
      (before_log before_commit : Shared d fs sp js → Shared d fs sp js)
      (verified : Result VerificationResult ApiError) (shared : Shared d fs sp js)
      (resp : VerifyApiResponse)
      → let (r, shared') =
          record_result d fs sp js req draws before_log before_commit verified shared in
        r ≡ ok resp → Recorded req draws before_log before_commit resp shared'.0
  unfolding record_result
  record_result-ok req draws before_log before_commit (ok result) shared resp e =
      (result, shared, ground arith, refl)
  record_result-ok req draws before_log before_commit (err x) shared resp e = cc

  verify_and_record-ok :
      {V F : Type 0} (state : AppState V F) (req : VerifyApiRequest) (draws : Draws)
      (before_log before_commit : Shared d fs sp js → Shared d fs sp js)
      (backend : Result VerifierBackend ApiError) (w : fs.World) (resp : VerifyApiResponse)
      → let (r, state', w') =
          verify_and_record d fs sp js state req draws before_log before_commit backend w in
        r ≡ ok resp → Recorded req draws before_log before_commit resp state'.fact_graph
  unfolding verify_and_record
  verify_and_record-ok state req draws before_log before_commit (ok backend) w resp e =
      record_result-ok req draws before_log before_commit _ _ resp e
  verify_and_record-ok state req draws before_log before_commit (err x) w resp e = cc

  -- Where a response names a fact, it is a success, the name is the hash of the payload, and the graph
  -- contains it when the handler ends, whatever other tasks have done in between.
  pub api_verify-fact_hash :
      {V F : Type 0} (state : AppState V F) (req : VerifyApiRequest) (draws : Draws)
      (before_log before_commit : Shared d fs sp js → Shared d fs sp js) (w : fs.World)
      (resp : VerifyApiResponse) (hash : Text)
      → let (r, state', w') = api_verify d fs sp js state req draws before_log before_commit w in
        r ≡ ok resp
        → resp.fact_hash ≡ some hash
        → (hash ≡ hash_hex d req.payload)
          × (resp.success ≡ true)
          × (contains_hash state'.fact_graph hash ≡ true)
  unfolding api_verify
  api_verify-fact_hash state req draws before_log before_commit w resp hash e named =
      let (result, start, resp_eq, graph_eq) =
        verify_and_record-ok state req draws before_log before_commit (backend_of req) w resp e in
      let (a, b, c) =
        commit_result_hash req result draws
          (before_commit (log_result d fs sp js req result draws (before_log start))) hash
          (ap (λ r. r.fact_hash) (sym resp_eq) ∙ named) in
      (a, ap (λ r. r.success) resp_eq ∙ b, rw graph_eq c)

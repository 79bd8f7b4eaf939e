-- ===== src/Api/Verification/Audit.antt =====
-- src/api.rs, `api_verify`: the log of attempts against the facts.
use mathlib.Core.List.{mem-append_left, mem-append_right, mem-cons_self}
use mathlib.Core.Logic.{∥∥₁_map}
use researcher_agent_kube_en.Base.{
  ℕ, ◌≡◌, refl, true, List, some, Result, ok, err, Text, text_eq, Mem, unwrap_or, arith, Bool-cases,
  inl, inr, text_eq_iff, subst,
}
use researcher_agent_kube_en.Base.Maps.{lookup}
use researcher_agent_kube_en.Platform.{Digest, Files, Json, Timestamp, hash_hex}
use researcher_agent_kube_en.Platform.Subprocess.{Subprocess}
use researcher_agent_kube_en.FactGraph.{
  FactGraph, FactNode, VerificationAttempt, commit_fact, log_attempt,
}
use researcher_agent_kube_en.FactGraph.Facts.{commit_fact-lookup, commit_fact-attempts}
use researcher_agent_kube_en.Verify.{VerifierBackend, VerificationResult}
use researcher_agent_kube_en.Api.{AppState, ApiError, VerifyApiRequest}
use researcher_agent_kube_en.Api.Verification.{
  Draws, Shared, backend_of, log_result, commit_result, record_result, verify_and_record,
  api_verify,
}

-- A successful attempt of the payload with this hash is in the log.
abbrev pub HasProof : List VerificationAttempt → Text → Type 0
HasProof attempts hash =
    ∥ ((a : VerificationAttempt) × Mem a attempts × (a.payload_hash ≡ hash) × (a.success ≡ true)) ∥₁

-- Every fact has one.
abbrev pub IsAudited : FactGraph → Type 0
IsAudited g = (hash : Text) (n : FactNode) → lookup hash g.nodes ≡ some n → HasProof g.attempts hash

-- A later graph still has all attempts of an earlier one: what every handler does to the log.
abbrev pub KeepsLog : FactGraph → FactGraph → Type 0
KeepsLog g h = (a : VerificationAttempt) → Mem a g.attempts → Mem a h.attempts

pub HasProof-KeepsLog :
    (g h : FactGraph) (hash : Text)
    → KeepsLog g h
    → HasProof g.attempts hash
    → HasProof h.attempts hash
HasProof-KeepsLog g h hash keeps p = ∥∥₁_map p (λ (a, m, e, s). (a, keeps a m, e, s))

module _ (d : Digest) (fs : Files) (sp : Subprocess fs.World fs.IoError) (js : Json FactGraph) where
  -- What the other tasks may do while the handler holds no lock: keep the log and the agreement.
  pub record IsFair (other : Shared d fs sp js → Shared d fs sp js) : Type 0 where
    pub keeps_log : (s : Shared d fs sp js) → KeepsLog s.0 (other s).0
    pub keeps_audit : (s : Shared d fs sp js) → IsAudited s.0 → IsAudited (other s).0

  pub log_result-KeepsLog :
      (req : VerifyApiRequest) (result : VerificationResult) (draws : Draws) (s : Shared d fs sp js)
      → KeepsLog s.0 (log_result d fs sp js req result draws s).0
  unfolding log_result log_attempt
  log_result-KeepsLog req result draws s a m = mem-append_left _ m

  pub log_result-IsAudited :
      (req : VerifyApiRequest) (result : VerificationResult) (draws : Draws) (s : Shared d fs sp js)
      → IsAudited s.0
      → IsAudited (log_result d fs sp js req result draws s).0
  unfolding log_result log_attempt
  log_result-IsAudited req result draws s v hash n e =
      ∥∥₁_map (v hash n e) (λ (a, m, p, q). (a, mem-append_left _ m, p, q))

  -- A success that was logged has its proof in the log.
  pub log_result-HasProof :
      (req : VerifyApiRequest) (result : VerificationResult) (draws : Draws) (s : Shared d fs sp js)
      → result.success ≡ true
      → HasProof (log_result d fs sp js req result draws s).0.attempts (hash_hex d req.payload)
  unfolding log_result log_attempt
  log_result-HasProof req result draws (g, w) good =
      ∣ (_, mem-append_right g.attempts mem-cons_self, refl, good) ∣₁

  -- A commit of a payload that has its proof in the log keeps the agreement.
  commit_fact-IsAudited :
      (g : FactGraph) (backend payload : Text) (epoch : ℕ) (tags : List Text) (id : Text)
      (now : Timestamp) (w : fs.World)
      → HasProof g.attempts (hash_hex d payload)
      → IsAudited g
      → IsAudited (commit_fact fs js d g backend payload epoch tags id now w).1
  commit_fact-IsAudited g backend payload epoch tags id now w proof v hash n e =
      let found = commit_fact-lookup fs js d g backend payload epoch tags id now w hash in
      rw (commit_fact-attempts fs js d g backend payload epoch tags id now w)
        (elim (Bool-cases (text_eq (hash_hex d payload) hash)) [
          | inl same ↦
              subst (HasProof g.attempts) ((text_eq_iff (hash_hex d payload) hash).0 same) proof
          | inr other ↦ v hash n (ground arith)
        ])

  pub commit_result-IsAudited :
      (req : VerifyApiRequest) (result : VerificationResult) (draws : Draws) (s : Shared d fs sp js)
      → (result.success ≡ true → HasProof s.0.attempts (hash_hex d req.payload))
      → IsAudited s.0
      → IsAudited (commit_result d fs sp js req result draws s).1.0
  unfolding commit_result
  commit_result-IsAudited req result draws (g, w) proof v = elim (Bool-cases result.success) [
    | inl good ↦ rw good (
        commit_fact-IsAudited g result.backend req.payload (unwrap_or req.epoch 0) req.fact_tags
          draws.fact_id draws.verified_at w (proof good) v)
    | inr bad ↦ rw bad v
  ]

  record_result-IsAudited :
      (req : VerifyApiRequest) (draws : Draws)
      (before_log before_commit : Shared d fs sp js → Shared d fs sp js)
      (verified : Result VerificationResult ApiError) (s : Shared d fs sp js)
      → IsFair before_log
      → IsFair before_commit
      → IsAudited s.0
      → IsAudited (record_result d fs sp js req draws before_log before_commit verified s).1.0
  unfolding record_result
  record_result-IsAudited req draws before_log before_commit (err x) s fl fc v = v
  record_result-IsAudited req draws before_log before_commit (ok result) s fl fc v =
      let logged = log_result d fs sp js req result draws (before_log s) in
      commit_result-IsAudited req result draws (before_commit logged)
        (λ good.
          HasProof-KeepsLog logged.0 (before_commit logged).0 (hash_hex d req.payload)
            (fc.keeps_log logged) (log_result-HasProof req result draws (before_log s) good))
        (fc.keeps_audit logged
          (log_result-IsAudited req result draws (before_log s) (fl.keeps_audit s v)))

  verify_and_record-IsAudited :
      {V F : Type 0} (state : AppState V F) (req : VerifyApiRequest) (draws : Draws)
      (before_log before_commit : Shared d fs sp js → Shared d fs sp js)
      (backend : Result VerifierBackend ApiError) (w : fs.World)
      → IsFair before_log
      → IsFair before_commit
      → IsAudited state.fact_graph
      → IsAudited
          (verify_and_record d fs sp js state req draws before_log before_commit backend
            w).1.fact_graph
  unfolding verify_and_record
  verify_and_record-IsAudited state req draws before_log before_commit (ok backend) w fl fc v =
      record_result-IsAudited req draws before_log before_commit _ (state.fact_graph, _) fl fc v
  verify_and_record-IsAudited state req draws before_log before_commit (err x) w fl fc v = v

  -- Every request keeps the agreement of facts and log: there is no fact without a successful attempt
  -- of a payload with its hash, if the tasks that run while the lock is free keep it and the log too.
  pub api_verify-IsAudited :
      {V F : Type 0} (state : AppState V F) (req : VerifyApiRequest) (draws : Draws)
      (before_log before_commit : Shared d fs sp js → Shared d fs sp js) (w : fs.World)
      → IsFair before_log
      → IsFair before_commit
      → IsAudited state.fact_graph
      → IsAudited (api_verify d fs sp js state req draws before_log before_commit w).1.fact_graph
  unfolding api_verify
  api_verify-IsAudited state req draws before_log before_commit w fl fc v =
      verify_and_record-IsAudited state req draws before_log before_commit (backend_of req) w fl fc
        v

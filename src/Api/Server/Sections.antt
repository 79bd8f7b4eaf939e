-- ===== src/Api/Server/Sections.antt =====
-- src/api.rs: what single sections keep of the graph, and what the handlers of the ledger leave alone.
use researcher_agent_kube_en.Base.{
  ◌≡◌, refl, Result, ok, err, Text, arith, Bool-cases, Result-cases, inl, inr, unwrap_or,
}
use researcher_agent_kube_en.Platform.{Digest, Files, Json, Timestamp}
use researcher_agent_kube_en.Platform.Subprocess.{Subprocess}
use researcher_agent_kube_en.FactGraph.{FactGraph, log_attempt}
use researcher_agent_kube_en.FactGraph.Facts.{
  IsIndexed, commit_fact-IsIndexed, commit_fact-attempts,
}
use researcher_agent_kube_en.Ledger.{Ledger, LedgerError, add_entry, neutralize_entry, save_ledger}
use researcher_agent_kube_en.Verify.{VerificationResult}
use researcher_agent_kube_en.Api.{AppState, AddGroundVectorRequest, VerifyApiRequest}
use researcher_agent_kube_en.Api.Verification.{Draws, Shared, log_result, commit_result}
use researcher_agent_kube_en.Api.Vectors.{
  add_ground_vector, neutralize_ground_vector, after_save, neutralize_found, policy_of,
}

-- What a handler of the ledger leaves alone.
abbrev pub KeepsRest : {V F : Type 0} → AppState V F → AppState V F → Type 0
KeepsRest app app' =
    app' ≡ record app { ledger = app'.ledger; rotation_trigger = app'.rotation_trigger }

module _ (d : Digest) (fs : Files) (sp : Subprocess fs.World fs.IoError) (js : Json FactGraph) where
  pub log_result-IsIndexed :
      (req : VerifyApiRequest) (result : VerificationResult) (draws : Draws) (s : Shared d fs sp js)
      → IsIndexed s.0
      → IsIndexed (log_result d fs sp js req result draws s).0
  unfolding log_result log_attempt
  log_result-IsIndexed req result draws s v = record {
    keyed = v.keyed;
    distinct = v.distinct;
    short = v.short;
  }

  pub commit_result-IsIndexed :
      (req : VerifyApiRequest) (result : VerificationResult) (draws : Draws) (s : Shared d fs sp js)
      → IsIndexed s.0
      → IsIndexed (commit_result d fs sp js req result draws s).1.0
  unfolding commit_result
  commit_result-IsIndexed req result draws (g, w) v = elim (Bool-cases result.success) [
    | inl good ↦ rw good (
        commit_fact-IsIndexed fs js d g result.backend req.payload (unwrap_or req.epoch 0)
          req.fact_tags draws.fact_id draws.verified_at w v)
    | inr bad ↦ rw bad v
  ]

  pub commit_result-attempts :
      (req : VerifyApiRequest) (result : VerificationResult) (draws : Draws) (s : Shared d fs sp js)
      → (commit_result d fs sp js req result draws s).1.0.attempts ≡ s.0.attempts
  unfolding commit_result
  commit_result-attempts req result draws (g, w) = elim (Bool-cases result.success) [
    | inl good ↦ rw good (
        commit_fact-attempts fs js d g result.backend req.payload (unwrap_or req.epoch 0)
          req.fact_tags draws.fact_id draws.verified_at w)
    | inr bad ↦ rw bad refl
  ]

module _ {V F : Type 0} (d : Digest) (fs : Files) (sp : Subprocess fs.World fs.IoError)
    (js : Json FactGraph) (ledger_js : Json (Ledger F)) where
  pub add_ground_vector-KeepsRest :
      (app : AppState V F) (req : AddGroundVectorRequest F) (id : Text) (now : Timestamp)
      (w : fs.World)
      → KeepsRest app (add_ground_vector fs ledger_js app req id now w).1
  unfolding add_ground_vector after_save
  add_ground_vector-KeepsRest app req id now w =
      let ledger =
        (add_entry app.ledger req.label req.content req.weight (policy_of req.rotation_policy) id
          now).0 in
      elim (Result-cases (save_ledger fs ledger_js ledger w).0) [
        | inl (u, e) ↦ rw e refl
        | inr (x, e) ↦ rw e refl
      ]

  neutralize_found-KeepsRest :
      (app : AppState V F) (id : Text) (w : fs.World)
      (r : Result (Unit {0}) (LedgerError fs.IoError ledger_js.SerdeError))
      → KeepsRest app (neutralize_found fs ledger_js app id r w).1
  unfolding neutralize_found
  neutralize_found-KeepsRest app id w (err e) = refl
  neutralize_found-KeepsRest app id w (ok u) = ground arith

  pub neutralize_ground_vector-KeepsRest :
      (app : AppState V F) (id : Text) (now : Timestamp) (w : fs.World)
      → KeepsRest app (neutralize_ground_vector fs ledger_js app id now w).1
  unfolding neutralize_ground_vector
  neutralize_ground_vector-KeepsRest app id now w =
      let (r, ledger) =
        neutralize_entry {Io = fs.IoError} {Serde = ledger_js.SerdeError} app.ledger id now in
      neutralize_found-KeepsRest (record app { ledger = ledger }) id w r

-- ===== src/Api/Server/Alone.antt =====
-- src/api.rs, `api_verify` without other tasks, as steps of the server.
use researcher_agent_kube_en.Base.{◌≡◌, refl, ap, subst, [], ◌∷◌, Result, ok, err}
use researcher_agent_kube_en.Platform.{Digest, Files, Json}
use researcher_agent_kube_en.Platform.Subprocess.{Subprocess}
use researcher_agent_kube_en.FactGraph.{FactGraph}
use researcher_agent_kube_en.Ledger.{Ledger}
use researcher_agent_kube_en.Verify.{VerifierBackend, VerificationResult}
use researcher_agent_kube_en.Api.{ApiError, VerifyApiRequest}
use researcher_agent_kube_en.Api.Verification.{
  Draws, backend_of, run_verification, log_result, record_result, verify_and_record, api_verify,
}
use researcher_agent_kube_en.Api.Server.{
  Server, verified, logged, with_shared, started, verify_section, log_section, commit_section, Step,
  verify, log, commit, Steps, done, more,
}

module _ {V F : Type 0} (d : Digest) (fs : Files) (sp : Subprocess fs.World fs.IoError)
    (js : Json FactGraph) (ledger_js : Json (Ledger F)) (s : Server V F fs.World)
    (req : VerifyApiRequest) (draws : Draws) where
  verify_step :
      (backend : VerifierBackend) (r : Result VerificationResult ApiError) (w : fs.World)
      → backend_of req ≡ ok backend
      → run_verification d fs sp js s.app.verification_engine backend req.payload s.world ≡ (r, w)
      → Step d fs sp js ledger_js s (record s { world = w; tasks = started req draws r s.tasks })
  unfolding verify_section
  verify_step backend r w named ran =
      subst (Step d fs sp js ledger_js s)
        (ap (λ x. record s { world = x.1; tasks = started req draws x.0 s.tasks }) ran)
        (verify s req draws backend named)

  record-Steps :
      (backend : VerifierBackend) (r : Result VerificationResult ApiError) (w : fs.World)
      → backend_of req ≡ ok backend
      → run_verification d fs sp js s.app.verification_engine backend req.payload s.world ≡ (r, w)
      → Steps d fs sp js ledger_js s (
          with_shared s
            (record_result d fs sp js req draws (λ x. x) (λ x. x) r (s.app.fact_graph, w)).1
            s.tasks)
  unfolding record_result log_section commit_section
  record-Steps backend (err x) w named ran =
      more s s _ (done s) (verify_step backend (err x) w named ran)
  record-Steps backend (ok result) w named ran =
      let s1 : Server V F fs.World = record s {
        world = w;
        tasks = verified req result draws ∷ s.tasks;
      } in
      let s2 =
        with_shared s1 (log_result d fs sp js req result draws (s.app.fact_graph, w))
          (logged req result draws ∷ s.tasks) in
      more s s2 _
        (more s s1 s2 (more s s s1 (done s) (verify_step backend (ok result) w named ran))
          (log s1 req result draws [] s.tasks refl))
        (commit s2 req result draws [] s.tasks refl)

  verify_and_record-Steps :
      (b : Result VerifierBackend ApiError)
      → backend_of req ≡ b
      → let (r, app, w) =
          verify_and_record d fs sp js s.app req draws (λ x. x) (λ x. x) b s.world in
        Steps d fs sp js ledger_js s (record s { app = app; world = w })
  unfolding verify_and_record
  verify_and_record-Steps (err x) named = done s
  verify_and_record-Steps (ok backend) named =
      let (r, w) =
        run_verification d fs sp js s.app.verification_engine backend req.payload s.world in
      record-Steps backend r w named refl

  -- A request to verify that no other task disturbs is a sequence of the server's steps, on every
  -- outcome: what the handler leaves is among the states that these reach.
  pub api_verify-Steps :
      let (r, app, w) = api_verify d fs sp js s.app req draws (λ x. x) (λ x. x) s.world in
      Steps d fs sp js ledger_js s (record s { app = app; world = w })
  unfolding api_verify
  api_verify-Steps = verify_and_record-Steps (backend_of req) refl

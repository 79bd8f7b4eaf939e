-- ===== src/Api/Server/Soundness.antt =====
-- src/api.rs: what every interleaving of requests keeps.
use researcher_agent_kube_en.Base.{
  ◌≡◌, sym, ap, subst, true, List, [], ◌∷◌, ◌++◌, some, Result, ok, err, inl, inr,
}
use researcher_agent_kube_en.Platform.{Digest, Files, Json, hash_hex}
use researcher_agent_kube_en.Platform.Subprocess.{Subprocess}
use researcher_agent_kube_en.State.{AgentState, compute_signature}
use researcher_agent_kube_en.FactGraph.{FactGraph, VerificationAttempt}
use researcher_agent_kube_en.FactGraph.Facts.{IsIndexed}
use researcher_agent_kube_en.Ledger.{Ledger}
use researcher_agent_kube_en.Ledger.Entries.{IsConsistent}
use researcher_agent_kube_en.Verify.{VerificationResult}
use researcher_agent_kube_en.Api.{AppState, ApiError, VerifyApiRequest}
use researcher_agent_kube_en.Api.Ingest.{ingest_state, ingest_state_outcome}
use researcher_agent_kube_en.Api.Verification.{Draws, Shared, log_result}
use researcher_agent_kube_en.Api.Verification.Audit.{
  HasProof, IsAudited, KeepsLog, HasProof-KeepsLog, log_result-KeepsLog, log_result-IsAudited,
  log_result-HasProof, commit_result-IsAudited,
}
use researcher_agent_kube_en.Api.Vectors.{
  add_ground_vector-IsConsistent, neutralize_ground_vector-IsConsistent,
}
use researcher_agent_kube_en.Api.Server.{
  Task, verified, logged, Server, started, ingest_section, verify_section, log_section,
  commit_section, add_section, neutralize_section, Step, ingest, verify, log, commit, add,
  neutralize, Steps, done, more,
}
use researcher_agent_kube_en.Api.Server.Sections.{
  KeepsRest, add_ground_vector-KeepsRest, neutralize_ground_vector-KeepsRest, log_result-IsIndexed,
  commit_result-IsIndexed, commit_result-attempts,
}

-- A task whose success is logged has its proof in the log.
abbrev pub IsProved : Digest → List VerificationAttempt → Task → Type 0
IsProved d attempts (verified req result draws) = Unit
IsProved d attempts (logged req result draws) =
    result.success ≡ true → HasProof attempts (hash_hex d req.payload)

abbrev pub AllProved : Digest → List VerificationAttempt → List Task → Type 0
AllProved d attempts [] = Unit
AllProved d attempts (t ∷ ts) = IsProved d attempts t × AllProved d attempts ts

-- The pending state carries the signature of the controller's key.
abbrev pub IsSigned : {V F : Type 0} → Digest → AppState V F → Type 0
IsSigned {V = V} d app =
    (p : AgentState V)
    → app.pending_state ≡ some p
    → p.signature ≡ compute_signature d p app.llm_api_key

pub record IsSound {V F W : Type 0} (d : Digest) (s : Server V F W) : Type 0 where
  pub signed : IsSigned d s.app
  pub indexed : IsIndexed s.app.fact_graph
  pub audited : IsAudited s.app.fact_graph
  pub consistent : IsConsistent s.app.ledger
  pub proved : AllProved d s.app.fact_graph.attempts s.tasks

AllProved-KeepsLog :
    (d : Digest) (g h : FactGraph) (ts : List Task)
    → KeepsLog g h
    → AllProved d g.attempts ts
    → AllProved d h.attempts ts
AllProved-KeepsLog d g h [] keeps p = tt
AllProved-KeepsLog d g h (verified req result draws ∷ ts) keeps p =
    (tt, AllProved-KeepsLog d g h ts keeps p.1)
AllProved-KeepsLog d g h (logged req result draws ∷ ts) keeps p = (
  λ good. HasProof-KeepsLog g h (hash_hex d req.payload) keeps (p.0 good),
  AllProved-KeepsLog d g h ts keeps p.1,
)

-- A task in the middle is replaced, or taken out.
AllProved_replace :
    (d : Digest) (attempts : List VerificationAttempt) (before after : List Task) (t u : Task)
    → AllProved d attempts (before ++ t ∷ after)
    → IsProved d attempts u
    → AllProved d attempts (before ++ u ∷ after)
AllProved_replace d attempts [] after t u p q = (q, p.1)
AllProved_replace d attempts (b ∷ before) after t u p q =
    (p.0, AllProved_replace d attempts before after t u p.1 q)

AllProved_remove :
    (d : Digest) (attempts : List VerificationAttempt) (before after : List Task) (t : Task)
    → AllProved d attempts (before ++ t ∷ after)
    → IsProved d attempts t × AllProved d attempts (before ++ after)
AllProved_remove d attempts [] after t p = p
AllProved_remove d attempts (b ∷ before) after t p =
    let (here, rest) = AllProved_remove d attempts before after t p.1 in (here, (p.0, rest))

IsSound-ledger :
    {V F W : Type 0} (d : Digest) (s : Server V F W) (app' : AppState V F) (w : W)
    → KeepsRest s.app app'
    → IsConsistent app'.ledger
    → IsSound d s
    → IsSound d (record s { app = app'; world = w })
IsSound-ledger d s app' w rest consistent v =
    let next : Server _ _ _ = record s {
      app = record s.app { ledger = app'.ledger; rotation_trigger = app'.rotation_trigger };
      world = w;
    } in
    let sound : IsSound d next = record {
      signed = v.signed;
      indexed = v.indexed;
      audited = v.audited;
      consistent = consistent;
      proved = v.proved;
    } in
    subst (λ app. IsSound d (record s { app = app; world = w })) (sym rest) sound

IsSound-ingest :
    {V F W : Type 0} (d : Digest) (s : Server V F W) (payload : AgentState V)
    → IsSound d s
    → IsSound d (record s { app = (ingest_state d s.app payload).1 })
IsSound-ingest d s payload v =
    let at : AppState _ _ → Type 0 = λ app. IsSound d (record s { app = app }) in
    elim (ingest_state_outcome d s.app payload) [
      | inl (good, e) ↦
          let next : Server _ _ _ = record s {
            app = record s.app { pending_state = some payload };
          } in
          let sound : IsSound d next = record {
            signed = λ p same. cc;
            indexed = v.indexed;
            audited = v.audited;
            consistent = v.consistent;
            proved = v.proved;
          } in
          subst at (sym (ap (λ x. x.1) e)) sound
      | inr (bad, e) ↦ subst at (sym (ap (λ x. x.1) e)) v
    ]

module _ (d : Digest) (fs : Files) (sp : Subprocess fs.World fs.IoError) (js : Json FactGraph) where
  started_proved :
      (attempts : List VerificationAttempt) (req : VerifyApiRequest) (draws : Draws)
      (r : Result VerificationResult ApiError) (ts : List Task)
      → AllProved d attempts ts
      → AllProved d attempts (started req draws r ts)
  started_proved attempts req draws (ok result) ts p = (tt, p)
  started_proved attempts req draws (err e) ts p = p

module _ {V F : Type 0} (d : Digest) (fs : Files) (sp : Subprocess fs.World fs.IoError)
    (js : Json FactGraph) (ledger_js : Json (Ledger F)) where
  Step-IsSound :
      {s t : Server V F fs.World} → Step d fs sp js ledger_js s t → IsSound d s → IsSound d t
  unfolding ingest_section verify_section log_section commit_section add_section neutralize_section
  Step-IsSound (ingest s payload) v = IsSound-ingest d s payload v
  Step-IsSound (verify s req draws backend e) v = record {
    signed = v.signed;
    indexed = v.indexed;
    audited = v.audited;
    consistent = v.consistent;
    proved = started_proved d fs sp js s.app.fact_graph.attempts req draws _ s.tasks v.proved;
  }
  Step-IsSound (log s req result draws before after e) v =
      let shared : Shared d fs sp js = (s.app.fact_graph, s.world) in
      let g = (log_result d fs sp js req result draws shared).0 in
      let kept =
        AllProved-KeepsLog d s.app.fact_graph g s.tasks
          (log_result-KeepsLog d fs sp js req result draws shared) v.proved in
      record {
        signed = v.signed;
        indexed = log_result-IsIndexed d fs sp js req result draws shared v.indexed;
        audited = log_result-IsAudited d fs sp js req result draws shared v.audited;
        consistent = v.consistent;
        proved =
            AllProved_replace d g.attempts before after (verified req result draws)
              (logged req result draws) (subst (AllProved d g.attempts) e kept)
              (log_result-HasProof d fs sp js req result draws shared);
      }
  Step-IsSound (commit s req result draws before after e) v =
      let shared : Shared d fs sp js = (s.app.fact_graph, s.world) in
      let (proof, rest) =
        AllProved_remove d s.app.fact_graph.attempts before after (logged req result draws)
          (subst (AllProved d s.app.fact_graph.attempts) e v.proved) in
      record {
        signed = v.signed;
        indexed = commit_result-IsIndexed d fs sp js req result draws shared v.indexed;
        audited = commit_result-IsAudited d fs sp js req result draws shared proof v.audited;
        consistent = v.consistent;
        proved =
            subst (λ attempts. AllProved d attempts (before ++ after))
              (sym (commit_result-attempts d fs sp js req result draws shared)) rest;
      }
  Step-IsSound (add s req id now) v =
      IsSound-ledger d s _ _
        (add_ground_vector-KeepsRest d fs sp js ledger_js s.app req id now s.world)
        (add_ground_vector-IsConsistent fs ledger_js s.app req id now s.world v.consistent) v
  Step-IsSound (neutralize s id now) v =
      IsSound-ledger d s _ _
        (neutralize_ground_vector-KeepsRest d fs sp js ledger_js s.app id now s.world)
        (neutralize_ground_vector-IsConsistent fs ledger_js s.app id now s.world v.consistent) v

  -- However the requests of any number of clients interleave, section by section, and whatever fails
  -- on the way, the server stays sound: every fact stands under its own hash and has a successful attempt
  -- in the log, the ledger is consistent, a pending state has the right signature, and what is still to
  -- be committed is already in the log.
  pub Steps-IsSound :
      {s t : Server V F fs.World} → Steps d fs sp js ledger_js s t → IsSound d s → IsSound d t
  Steps-IsSound (done s) v = v
  Steps-IsSound (more s t u before last) v = Step-IsSound last (Steps-IsSound before v)

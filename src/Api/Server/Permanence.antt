-- ===== src/Api/Server/Permanence.antt =====
-- src/api.rs: what no request takes away.
use researcher_agent_kube_en.Base.{
  ◌≡◌, sym, ap, subst, some, Text, arith, Bool-cases, inl, inr, unwrap_or, Mem,
}
use researcher_agent_kube_en.Base.Maps.{lookup}
use researcher_agent_kube_en.Platform.{Digest, Files, Json}
use researcher_agent_kube_en.Platform.Subprocess.{Subprocess}
use researcher_agent_kube_en.State.{AgentState}
use researcher_agent_kube_en.FactGraph.{FactGraph, FactNode, log_attempt}
use researcher_agent_kube_en.FactGraph.Facts.{commit_fact-keeps}
use researcher_agent_kube_en.Ledger.{Ledger}
use researcher_agent_kube_en.Verify.{VerificationResult}
use researcher_agent_kube_en.Api.{AppState, VerifyApiRequest}
use researcher_agent_kube_en.Api.Ingest.{ingest_state}
use researcher_agent_kube_en.Api.Verification.{Draws, Shared, log_result, commit_result}
use researcher_agent_kube_en.Api.Verification.Audit.{KeepsLog, log_result-KeepsLog}
use researcher_agent_kube_en.Api.Server.{
  Server, ingest_section, verify_section, log_section, commit_section, add_section,
  neutralize_section, Step, ingest, verify, log, commit, add, neutralize, Steps, done, more,
}
use researcher_agent_kube_en.Api.Server.Sections.{
  commit_result-attempts, add_ground_vector-KeepsRest, neutralize_ground_vector-KeepsRest,
}

-- A later graph has every fact and every attempt of an earlier one.
pub record Extends (g h : FactGraph) : Type 0 where
  pub facts :
      (hash : Text) (n : FactNode) → lookup hash g.nodes ≡ some n → lookup hash h.nodes ≡ some n
  pub attempts : KeepsLog g h

Extends-refl : (g : FactGraph) → Extends g g
Extends-refl g = record { facts = λ hash n e. e; attempts = λ a m. m }

Extends-trans : (g h k : FactGraph) → Extends g h → Extends h k → Extends g k
Extends-trans g h k p q = record {
  facts = λ hash n e. q.facts hash n (p.facts hash n e);
  attempts = λ a m. q.attempts a (p.attempts a m);
}

Extends-≡ : (g h : FactGraph) → h ≡ g → Extends g h
Extends-≡ g h e = subst (Extends g) (sym e) (Extends-refl g)

module _ (d : Digest) (fs : Files) (sp : Subprocess fs.World fs.IoError) (js : Json FactGraph) where
  log_result-Extends :
      (req : VerifyApiRequest) (result : VerificationResult) (draws : Draws) (s : Shared d fs sp js)
      → Extends s.0 (log_result d fs sp js req result draws s).0
  unfolding log_result log_attempt
  log_result-Extends req result draws s = record {
    facts = λ hash n e. e;
    attempts = log_result-KeepsLog d fs sp js req result draws s;
  }

  commit_result-keeps :
      (req : VerifyApiRequest) (result : VerificationResult) (draws : Draws) (s : Shared d fs sp js)
      (hash : Text) (n : FactNode)
      → lookup hash s.0.nodes ≡ some n
      → lookup hash (commit_result d fs sp js req result draws s).1.0.nodes ≡ some n
  unfolding commit_result
  commit_result-keeps req result draws (g, w) hash n e = elim (Bool-cases result.success) [
    | inl good ↦ rw good (
        commit_fact-keeps fs js d g result.backend req.payload (unwrap_or req.epoch 0) req.fact_tags
          draws.fact_id draws.verified_at w hash n e)
    | inr bad ↦ rw bad e
  ]

  commit_result-Extends :
      (req : VerifyApiRequest) (result : VerificationResult) (draws : Draws) (s : Shared d fs sp js)
      → Extends s.0 (commit_result d fs sp js req result draws s).1.0
  commit_result-Extends req result draws s = record {
    facts = commit_result-keeps req result draws s;
    attempts = λ a m. subst (Mem a) (sym (commit_result-attempts d fs sp js req result draws s)) m;
  }

ingest_state-fact_graph :
    {V F : Type 0} (d : Digest) (app : AppState V F) (payload : AgentState V)
    → (ingest_state d app payload).1.fact_graph ≡ app.fact_graph
unfolding ingest_state
ingest_state-fact_graph d app payload = ground arith

module _ {V F : Type 0} (d : Digest) (fs : Files) (sp : Subprocess fs.World fs.IoError)
    (js : Json FactGraph) (ledger_js : Json (Ledger F)) where
  Step-Extends :
      {s t : Server V F fs.World}
      → Step d fs sp js ledger_js s t
      → Extends s.app.fact_graph t.app.fact_graph
  unfolding ingest_section verify_section log_section commit_section add_section neutralize_section
  Step-Extends (ingest s payload) = Extends-≡ _ _ (ingest_state-fact_graph d s.app payload)
  Step-Extends (verify s req draws backend e) = Extends-refl s.app.fact_graph
  Step-Extends (log s req result draws before after e) =
      log_result-Extends d fs sp js req result draws (s.app.fact_graph, s.world)
  Step-Extends (commit s req result draws before after e) =
      commit_result-Extends d fs sp js req result draws (s.app.fact_graph, s.world)
  Step-Extends (add s req id now) = Extends-≡ _ _ (
      ap (λ app. app.fact_graph)
        (add_ground_vector-KeepsRest d fs sp js ledger_js s.app req id now s.world))
  Step-Extends (neutralize s id now) = Extends-≡ _ _ (
      ap (λ app. app.fact_graph)
        (neutralize_ground_vector-KeepsRest d fs sp js ledger_js s.app id now s.world))

  -- However the requests interleave, whatever fails on the way: every fact is still found unchanged
  -- under its hash, and every attempt is still in the log.
  pub Steps-Extends :
      {s t : Server V F fs.World}
      → Steps d fs sp js ledger_js s t
      → Extends s.app.fact_graph t.app.fact_graph
  Steps-Extends (done s) = Extends-refl s.app.fact_graph
  Steps-Extends (more s t u before last) =
      Extends-trans _ _ _ (Steps-Extends before) (Step-Extends last)

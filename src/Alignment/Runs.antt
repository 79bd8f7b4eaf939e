-- ===== src/Alignment/Runs.antt =====
-- src/alignment.rs, `run_alignment_gate` over a sequence of states: what the gate becomes by its own
-- feedback, as every state that passes adds a ground vector.
use mathlib.Core.List.{append_assoc, append-nil}
use researcher_agent_kube_en.Base.{
  ◌≡◌, refl, sym, ap, subst, ◌∙◌, true, false, List, [], ◌∷◌, ◌++◌, Result, ok, err, Text, lit, Map,
  inl, inr, Bool-cases, Result-cases,
}
use researcher_agent_kube_en.Base.Decimal.{decimal}
use researcher_agent_kube_en.Platform.{Digest, Json, Values}
use researcher_agent_kube_en.Platform.Float.{Float}
use researcher_agent_kube_en.Platform.Ed25519.{Ed25519}
use researcher_agent_kube_en.State.{AgentState}
use researcher_agent_kube_en.Alignment.Embedding.{text_to_embedding}
use researcher_agent_kube_en.Alignment.{
  GroundVector, AlignmentReport, below_threshold, Gate, Error, strip_structural_metadata,
  compute_alignment_score, anchor_label, sign_payload, run_alignment_gate, gate_serialized,
}

module _ (fl : Float) (d : Digest) (ed : Ed25519) (vs : Values) (js : Json (Map vs.Value)) where
  -- The results of the gate on the states, each with the UUID that it draws, and the gate afterwards.
  unfoldable pub run_gate :
      List (AgentState vs.Value × Text)
      → Gate fl d ed
      → List (Result (AlignmentReport fl.F64) (Error fl d ed vs js)) × Gate fl d ed
  run_gate [] gate = ([], gate)
  run_gate ((state, id) ∷ calls) gate =
      let (r, gate1) = run_alignment_gate fl d ed vs js gate state id in
      let (results, gate2) = run_gate calls gate1 in (r ∷ results, gate2)

  -- The ground vector that a state leaves, by its score.
  abbrev pub anchor : AgentState vs.Value → Text → fl.F64 → GroundVector fl.F64
  anchor state id score = record {
    objective_id = id;
    embedding = text_to_embedding fl d state.semantic.sanitized_summary;
    label = lit "epoch_" ++ (decimal state.dag.epoch ++ (lit "_pod_" ++ state.pod_name));
    weight = score;
  }

  -- Those of the states that have passed, in their order.
  unfoldable pub anchors :
      List (AgentState vs.Value × Text)
      → List (Result (AlignmentReport fl.F64) (Error fl d ed vs js))
      → List (GroundVector fl.F64)
  anchors ((state, id) ∷ calls) (ok r ∷ results) = anchor state id r.score ∷ anchors calls results
  anchors (call ∷ calls) (err e ∷ results) = anchors calls results
  anchors [] results = []
  anchors (call ∷ calls) [] = []

  -- A report names a score that is not below the threshold, a refusal one that is.
  abbrev pub Judged : fl.F64 → Result (AlignmentReport fl.F64) (Error fl d ed vs js) → Type 0
  Judged threshold (ok r) =
      (r.passed ≡ true) × (r.threshold ≡ threshold) × (fl.lt r.score threshold ≡ false)
  Judged threshold (err (below_threshold score t)) =
      (t ≡ threshold) × (fl.lt score threshold ≡ true)
  Judged threshold (err _) = Unit

  abbrev pub AllJudged :
      fl.F64 → List (Result (AlignmentReport fl.F64) (Error fl d ed vs js)) → Type 0
  AllJudged threshold [] = Unit
  AllJudged threshold (r ∷ results) = Judged threshold r × AllJudged threshold results

  -- One call.
  abbrev Left :
      Gate fl d ed
      → AgentState vs.Value
      → Text
      → Result (AlignmentReport fl.F64) (Error fl d ed vs js) × Gate fl d ed
      → Type 0
  Left gate state id (r, gate') =
      Judged gate.threshold r
      × (gate' ≡ record gate {
        ground_vectors = gate.ground_vectors ++ anchors ((state, id) ∷ []) (r ∷ []);
      })

  run_alignment_gate-Left :
      (gate : Gate fl d ed) (state : AgentState vs.Value) (id : Text)
      → Left gate state id (run_alignment_gate fl d ed vs js gate state id)
  unfolding run_alignment_gate gate_serialized sign_payload anchors anchor_label
  run_alignment_gate-Left gate state id =
      let score = compute_alignment_score fl d state.semantic gate.objective gate.ground_vectors in
      let same =
        ap (λ gvs. record gate { ground_vectors = gvs }) (sym (append-nil gate.ground_vectors)) in
      elim (Result-cases (js.to_string (strip_structural_metadata vs state))) [
        | inr (e, failed) ↦ rw (failed, run_alignment_gate) (tt, same)
        | inl (json, printed) ↦ elim (Bool-cases (fl.lt score gate.threshold)) [
          | inl low ↦ rw (printed, run_alignment_gate) (rw low ((refl, low), same))
          | inr high ↦ rw (printed, run_alignment_gate) (rw high ((refl, refl, high), refl))
        ]
      ]

  anchors-cons :
      (state : AgentState vs.Value) (id : Text)
      (r : Result (AlignmentReport fl.F64) (Error fl d ed vs js))
      (calls : List (AgentState vs.Value × Text))
      (results : List (Result (AlignmentReport fl.F64) (Error fl d ed vs js)))
      → (anchors ((state, id) ∷ []) (r ∷ []) ++ anchors calls results)
        ≡ anchors ((state, id) ∷ calls) (r ∷ results)
  unfolding anchors
  anchors-cons state id (ok r) calls results = refl
  anchors-cons state id (err e) calls results = refl

  -- The feedback of the gate: over any sequence of states its ground vectors become those that it had and,
  -- behind them in order, one for each state that has passed, with the state's summary as its
  -- embedding and the score that the report names as its weight; the refused states leave none, and the
  -- objective, the threshold and the keys stay. Every report names a score that is not below the
  -- threshold, every refusal for its score one that is.
  pub run_gate-anchors :
      (calls : List (AgentState vs.Value × Text)) (gate : Gate fl d ed)
      → let (results, gate') = run_gate calls gate in
        AllJudged gate.threshold results
        × (gate' ≡ record gate { ground_vectors = gate.ground_vectors ++ anchors calls results })
  unfolding run_gate anchors
  run_gate-anchors [] gate =
      (tt, ap (λ gvs. record gate { ground_vectors = gvs }) (sym (append-nil gate.ground_vectors)))
  run_gate-anchors ((state, id) ∷ calls) gate =
      let (r, gate1) = run_alignment_gate fl d ed vs js gate state id in
      let (judged, left) = run_alignment_gate-Left gate state id in
      let (rest, final) = run_gate-anchors calls gate1 in
      let results = (run_gate calls gate1).0 in
      (
        (judged, subst (λ (g : Gate fl d ed). AllJudged g.threshold results) left rest),
        final
            ∙ ap
                (λ (g : Gate fl d ed). record g {
                  ground_vectors = g.ground_vectors ++ anchors calls results;
                })
                left
            ∙ ap (λ gvs. record gate { ground_vectors = gvs })
                (append_assoc gate.ground_vectors (anchors ((state, id) ∷ []) (r ∷ [])) _
                  ∙ ap (λ gvs. gate.ground_vectors ++ gvs) (anchors-cons state id r calls results)),
      )

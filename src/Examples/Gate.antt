-- ===== src/Examples/Gate.antt =====
-- A gate with thresholds below and above the score of a context, and its parts.
use researcher_agent_kube_en.Base.{
  ℕ, ◌≡◌, refl, ap, true, false, List, [], ◌∷◌, ok, Text, lit, Map, ltb, none,
}
use researcher_agent_kube_en.Base.Strings.{join}
use researcher_agent_kube_en.Platform.{Json}
use researcher_agent_kube_en.State.{AgentState}
use researcher_agent_kube_en.Alignment.{
  AlignmentReport, Gate, compute_alignment_score, run_alignment_gate,
}
use researcher_agent_kube_en.Alignment.Embedding.{cosine_similarity, text_to_embedding}
use researcher_agent_kube_en.Alignment.Runs.{run_gate, anchors, AllJudged, run_gate-anchors}
use researcher_agent_kube_en.Alignment.Gate.{run_alignment_gate-passes, run_alignment_gate-signed}
use researcher_agent_kube_en.Examples.{
  plain_digest, json_of, values_model, thousandths, open_signatures, open_signatures-IsCorrect,
}
use researcher_agent_kube_en.Examples.Signing.{nothing_found}

-- A context that repeats the objective, of 32 characters.
abbrev objective : Text
objective = lit "prove that one plus one is two!!"

abbrev state : AgentState (List Text)
state = record {
  agent_id = lit "a1";
  pod_name = lit "p1";
  namespace = lit "raket";
  captured_at = 0;
  dag = record { nodes = []; current_task_pointer = none; epoch = 7 };
  semantic = record nothing_found { sanitized_summary = objective };
  signature = [];
}

abbrev context_json : Json (Map (List Text))
context_json = json_of (lit "{context}") []

abbrev gate : ℕ → Gate thousandths plain_digest open_signatures
gate threshold = record {
  objective = objective;
  threshold = threshold;
  signing_key = 42;
  verifying_key = 42;
  ground_vectors = [];
}

abbrev score : ℕ
score = compute_alignment_score thousandths plain_digest state.semantic objective []

low : ltb score 1000000 ≡ true
unfolding compute_alignment_score text_to_embedding cosine_similarity lit join
low = refl

high : ltb score 0 ≡ false
unfolding compute_alignment_score text_to_embedding cosine_similarity lit join
high = refl

-- The context twice.
abbrev calls : List (AgentState (List Text) × Text)
calls = (state, lit "g1") ∷ (state, lit "g2") ∷ []

run_gate-anchors_example :
    let (results, gate') =
      run_gate thousandths plain_digest open_signatures values_model context_json calls (gate 0) in
    AllJudged thousandths plain_digest open_signatures values_model context_json 0 results
    × (gate' ≡ record (gate 0) {
      ground_vectors =
          anchors thousandths plain_digest open_signatures values_model context_json calls results;
    })
run_gate-anchors_example =
    run_gate-anchors thousandths plain_digest open_signatures values_model context_json calls
      (gate 0)

-- The report of a pass, as the gate answers it.
abbrev report : AlignmentReport ℕ
report =
    (run_alignment_gate-passes thousandths plain_digest open_signatures values_model context_json
      (gate 0) state (lit "g1") (lit "{context}") refl high).0

reported :
    (run_alignment_gate thousandths plain_digest open_signatures values_model context_json
      (gate 0)
      state
      (lit "g1")).0
    ≡ ok report
reported =
    ap (λ x. x.0)
      (run_alignment_gate-passes thousandths plain_digest open_signatures values_model context_json
        (gate 0) state (lit "g1") (lit "{context}") refl high).2

run_alignment_gate-signed_example :
    (s : ℕ × Text) × (report.ed25519_signature ≡ s.0 ∷ s.1)
    × (open_signatures.verify 42 report.signed_payload_hash s ≡ true)
run_alignment_gate-signed_example =
    run_alignment_gate-signed thousandths plain_digest open_signatures values_model context_json
      (gate 0) state (lit "g1") report open_signatures-IsCorrect refl reported

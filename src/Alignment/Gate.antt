-- ===== src/Alignment/Gate.antt =====
-- src/alignment.rs, `run_alignment_gate`: its outcomes.
use researcher_agent_kube_en.Base.{
  ◌≡◌, refl, ◌+◌, true, false, [], ◌∷◌, ◌++◌, ok, err, Text, Map, length, length-append, arith, ◌⊎◌,
  inl, inr, Bool-cases, Result-cases,
}
use researcher_agent_kube_en.Platform.{Digest, Json, Values, hash_hex}
use researcher_agent_kube_en.Platform.Float.{Float}
use researcher_agent_kube_en.Platform.Ed25519.{Ed25519, IsCorrect}
use researcher_agent_kube_en.State.{AgentState}
use researcher_agent_kube_en.Alignment.{
  GroundVector, AlignmentReport, below_threshold, serde, Gate, Error, strip_structural_metadata,
  compute_alignment_score, sign_payload, run_alignment_gate, gate_serialized,
}

module _ (fl : Float) (d : Digest) (ed : Ed25519) (vs : Values) (js : Json (Map vs.Value))
    (gate : Gate fl d ed) (state : AgentState vs.Value) (id : Text) where
  abbrev score : fl.F64
  score = compute_alignment_score fl d state.semantic gate.objective gate.ground_vectors

  -- A score below the threshold is refused with the score, and the gate stays as it was.
  pub run_alignment_gate-rejects :
      (json : Text)
      → js.to_string (strip_structural_metadata vs state) ≡ ok json
      → fl.lt
          (compute_alignment_score fl d state.semantic gate.objective gate.ground_vectors)
          gate.threshold
        ≡ true
      → run_alignment_gate fl d ed vs js gate state id
        ≡ (err (below_threshold score gate.threshold), gate)
  unfolding run_alignment_gate gate_serialized
  run_alignment_gate-rejects json printed low = rw (printed, run_alignment_gate) (ground arith)

  -- Whatever does not count as below the threshold passes: the
  -- report carries the score, one ground vector with the score as its weight is added behind the
  -- others, and the report lists them all.
  pub run_alignment_gate-passes :
      (json : Text)
      → js.to_string (strip_structural_metadata vs state) ≡ ok json
      → fl.lt score gate.threshold ≡ false
      → (r : AlignmentReport fl.F64) × (gv : GroundVector fl.F64) × (run_alignment_gate fl d ed vs
            js gate state id
          ≡ (ok r, record gate { ground_vectors = gate.ground_vectors ++ gv ∷ [] }))
        × (r.passed ≡ true)
        × (r.score ≡ score)
        × (r.active_vectors ≡ gate.ground_vectors ++ gv ∷ [])
        × (gv.weight ≡ score)
        × (r.signed_payload_hash ≡ hash_hex d (json ++ b':' ∷ fl.print score))
  unfolding run_alignment_gate gate_serialized sign_payload
  run_alignment_gate-passes json printed high =
      rw (printed, run_alignment_gate) (rw high (_, _, refl, refl, refl, refl, refl, refl))

  -- The signature of every report verifies under the gate's verifying key, for the hash that the
  -- report names, if the gate's keys belong together and the signature scheme is correct.
  pub run_alignment_gate-signed :
      (r : AlignmentReport fl.F64)
      → IsCorrect ed
      → gate.verifying_key ≡ ed.verifying_key gate.signing_key
      → (run_alignment_gate fl d ed vs js gate state id).0 ≡ ok r
      → (s : ed.Signature) × (r.ed25519_signature ≡ d.hex_encode (ed.signature_bytes s))
        × (ed.verify gate.verifying_key r.signed_payload_hash s ≡ true)
  unfolding run_alignment_gate gate_serialized sign_payload
  run_alignment_gate-signed r right keys e = (
    ed.sign gate.signing_key r.signed_payload_hash,
    ground arith,
    rw keys (right.sign_verifies _ _),
  )

  -- The gate only ever grows by one vector, and only together with a report.
  pub run_alignment_gate_grows :
      let (r, gate') = run_alignment_gate fl d ed vs js gate state id in
      ((rep : AlignmentReport fl.F64) × (r ≡ ok rep)
        × (length gate'.ground_vectors ≡ length gate.ground_vectors + 1))
      ⊎ ((e : Error fl d ed vs js) × (r ≡ err e) × (gate' ≡ gate))
  unfolding run_alignment_gate gate_serialized sign_payload
  run_alignment_gate_grows =
      elim (Result-cases (js.to_string (strip_structural_metadata vs state))) [
        | inr (e, failed) ↦ rw (failed, run_alignment_gate) (inr (serde e, refl, refl))
        | inl (json, printed) ↦ elim (Bool-cases (fl.lt score gate.threshold)) [
          | inl low ↦ rw (printed, run_alignment_gate) (rw low (inr (_, refl, refl)))
          | inr high ↦
              rw (printed, run_alignment_gate)
                (rw high (inl (_, refl, length-append gate.ground_vectors _)))
        ]
      ]

-- ===== src/Alignment.antt =====
-- src/alignment.rs: the alignment gate, which scores an agent's semantic context against an objective,
-- refuses what scores below the threshold, and anchors and signs the rest.
pub mod Embedding
pub mod Gate
pub mod Runs
pub mod Score
use researcher_agent_kube_en.Base.{
  ℕ, Bool, true, false, List, [], ◌∷◌, ◌++◌, map, Option, Result, ok, err, Text, lit, Map,
  unwrap_or, if◌then◌else◌, map_err, ◌>>=◌,
}
use researcher_agent_kube_en.Base.Strings.{join}
use researcher_agent_kube_en.Base.Decimal.{decimal}
use researcher_agent_kube_en.Base.Maps.{insert}
use researcher_agent_kube_en.Platform.{Digest, Json, Values, hash_hex}
use researcher_agent_kube_en.Platform.Float.{Float, sum}
use researcher_agent_kube_en.Platform.Ed25519.{Ed25519}
use researcher_agent_kube_en.State.{AgentState, SemanticContext}
use Embedding.{text_to_embedding, cosine_similarity}

pub record GroundVector (F : Type 0) : Type 0 where
  pub objective_id : Text
  pub embedding : List F
  pub label : Text
  pub weight : F

pub record AlignmentReport (F : Type 0) : Type 0 where
  pub passed : Bool
  pub score : F
  pub threshold : F
  pub active_vectors : List (GroundVector F)
  pub ed25519_signature : Text
  pub signed_payload_hash : Text

pub data AlignmentError (F Serde : Type 0) : Type 0 where
  serde : Serde → AlignmentError F Serde
  below_threshold : (score threshold : F) → AlignmentError F Serde
  signing : Text → AlignmentError F Serde

pub record AlignmentGate (F Signing Verifying : Type 0) : Type 0 where
  pub objective : Text
  pub threshold : F
  pub signing_key : Signing
  pub verifying_key : Verifying
  pub ground_vectors : List (GroundVector F)

-- The three semantic fields, and nothing of the graph of tasks or of the pod.
unfoldable pub strip_structural_metadata : (vs : Values) → AgentState vs.Value → Map vs.Value
strip_structural_metadata vs state =
    insert (lit "scratchpad_tokens")
      (unwrap_or (vs.to_value state.semantic.scratchpad_tokens) vs.null)
      (insert (lit "key_findings") (unwrap_or (vs.to_value state.semantic.key_findings) vs.null)
        (insert (lit "sanitized_summary") (vs.string state.semantic.sanitized_summary) []))

-- `format!("{} {} {}", …)`
unfoldable pub combined_text : SemanticContext → Text
combined_text s =
    s.sanitized_summary
    ++ b' ' ∷ (join (lit " ") s.key_findings ++ b' ' ∷ join (lit " ") s.scratchpad_tokens)

module _ (fl : Float) (d : Digest) where
  open fl use {F64, add, mul, div, max, lt}

  -- The weighted scores of the ground vectors over the sum of their weights.
  unfoldable pub ground_score : List F64 → List (GroundVector F64) → F64
  unfolding sum cosine_similarity
  ground_score state_embedding gvs =
      div
        (sum fl (map (λ gv. mul (cosine_similarity fl state_embedding gv.embedding) gv.weight) gvs))
        (max (sum fl (map (λ gv. gv.weight) gvs)) fl.nano)

  -- The base score joined with that of the ground vectors, if there are any.
  unfoldable pub fuse : F64 → List F64 → List (GroundVector F64) → F64
  unfolding ground_score
  fuse base state_embedding [] = base
  fuse base state_embedding (gv ∷ gvs) =
      div (add base (ground_score state_embedding (gv ∷ gvs))) fl.two

  unfoldable pub compute_alignment_score : SemanticContext → Text → List (GroundVector F64) → F64
  unfolding combined_text fuse text_to_embedding cosine_similarity
  compute_alignment_score semantic objective gvs =
      let state_embedding = text_to_embedding fl d (combined_text semantic) in
      let objective_embedding = text_to_embedding fl d objective in
      fuse (cosine_similarity fl state_embedding objective_embedding) state_embedding gvs

  module _ (ed : Ed25519) where
    open ed use {SigningKey, VerifyingKey, sign, signature_bytes}

    abbrev pub Gate : Type 0
    Gate = AlignmentGate F64 SigningKey VerifyingKey

    -- `AlignmentGate::new`, with the key that `SigningKey::generate` draws.
    unfoldable pub new : Text → F64 → SigningKey → Gate
    new objective threshold key = record {
      objective = objective;
      threshold = threshold;
      signing_key = key;
      verifying_key = ed.verifying_key key;
      ground_vectors = [];
    }

    -- The signature of the payload's hash, in hexadecimal, and the hash. It cannot fail.
    unfoldable pub sign_payload :
        {S : Type 0} → Gate → Text → Result (Text × Text) (AlignmentError F64 S)
    sign_payload gate payload =
        let hash = hash_hex d payload in
        ok (d.hex_encode (signature_bytes (sign gate.signing_key hash)), hash)

    unfoldable pub get_verifying_key_hex : Gate → Text
    get_verifying_key_hex gate = d.hex_encode (ed.key_bytes gate.verifying_key)

    module _ (vs : Values) (js : Json (Map vs.Value)) where
      abbrev pub Error : Type 0
      Error = AlignmentError F64 js.SerdeError

      -- `format!("epoch_{}_pod_{}", …)`
      unfoldable pub anchor_label : AgentState vs.Value → Text
      anchor_label state =
          lit "epoch_" ++ (decimal state.dag.epoch ++ (lit "_pod_" ++ state.pod_name))

      -- What is left to do once the context has been serialized: the test of the score, the new
      -- ground vector and the signature.
      unfoldable pub gate_serialized :
          Gate → AgentState vs.Value → Text → Text → Result (AlignmentReport F64) Error × Gate
      unfolding compute_alignment_score sign_payload anchor_label
      gate_serialized gate state id stripped_json =
          let score = compute_alignment_score state.semantic gate.objective gate.ground_vectors in
          let new_gv : GroundVector F64 = record {
            objective_id = id;
            embedding = text_to_embedding fl d state.semantic.sanitized_summary;
            label = anchor_label state;
            weight = score;
          } in
          let pushed = record gate { ground_vectors = gate.ground_vectors ++ new_gv ∷ [] } in
          let signed : Result (Text × Text) Error =
            sign_payload pushed (stripped_json ++ b':' ∷ fl.print score) in
          let report = signed >>= λ s. ok (record {
            passed = true;
            score = score;
            threshold = gate.threshold;
            active_vectors = pushed.ground_vectors;
            ed25519_signature = s.0;
            signed_payload_hash = s.1;
          }) in
          if lt score gate.threshold
          then (err (below_threshold score gate.threshold), gate)
          else (report, pushed)

      -- The whole gate; `id` is the UUID of the ground vector.
      unfoldable pub run_alignment_gate :
          Gate → AgentState vs.Value → Text → Result (AlignmentReport F64) Error × Gate
      unfolding strip_structural_metadata gate_serialized
      run_alignment_gate gate state id = elim (js.to_string (strip_structural_metadata vs state)) [
        | ok stripped_json ↦ gate_serialized gate state id stripped_json
        | err e ↦ (err (serde e), gate)
      ]

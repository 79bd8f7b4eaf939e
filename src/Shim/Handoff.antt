-- ===== src/Shim/Handoff.antt =====
-- src/shim.rs, `serialize_and_transmit`, against the handler in src/api.rs that takes the state in.
use researcher_agent_kube_en.Base.{◌≡◌, ap, inl, inr, some, ok, Text}
use researcher_agent_kube_en.Platform.{Digest, Timestamp}
use researcher_agent_kube_en.State.{compute_signature, signed_text}
use researcher_agent_kube_en.Api.{AppState, accepted_202}
use researcher_agent_kube_en.Api.Ingest.{ingest_state, ingest_state_outcome}
use researcher_agent_kube_en.Shim.{ShimRuntime, captured_state}

captured_state_signed :
    (d : Digest) {V : Type 0} (runtime : ShimRuntime V) (now : Timestamp) (key : Text)
    → runtime.llm_api_key ≡ key
    → (captured_state d runtime now).signature
      ≡ compute_signature d (captured_state d runtime now) key
unfolding captured_state compute_signature signed_text
captured_state_signed d runtime now key same =
    ap (compute_signature d (captured_state d runtime now)) same

-- With the same key on both sides, the controller accepts what the shim sends, and holds it as the
-- pending state.
pub ingest_state-captured_state :
    (d : Digest) {V F : Type 0} (runtime : ShimRuntime V) (state : AppState V F) (now : Timestamp)
    → runtime.llm_api_key ≡ state.llm_api_key
    → ingest_state d state (captured_state d runtime now)
      ≡ (ok accepted_202, record state { pending_state = some (captured_state d runtime now) })
ingest_state-captured_state d runtime state now same =
    elim (ingest_state_outcome d state (captured_state d runtime now)) [
      | inl (good, e) ↦ e
      | inr (bad, e) ↦ absurd (bad (captured_state_signed d runtime now _ same))
    ]

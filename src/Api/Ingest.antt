-- ===== src/Api/Ingest.antt =====
-- src/api.rs, `ingest_state`: the handler that takes in the state of a terminating agent.
use researcher_agent_kube_en.Base.{
  ◌≡◌, not, ◌++◌, some, Result, ok, err, lit, text_eq, text_eq_iff, if◌then◌else◌, arith, ◌⊎◌, inl,
  inr, ◌≢◌, Bool-cases,
}
use researcher_agent_kube_en.Platform.{Digest}
use researcher_agent_kube_en.State.{AgentState, compute_signature}
use researcher_agent_kube_en.State.Signature.{compute_signature-unbound}
use researcher_agent_kube_en.Api.{AppState, ApiError, rejected, StatusCode, accepted_202}

module _ (d : Digest) {V F : Type 0} where
  unfoldable pub ingest_state :
      AppState V F → AgentState V → Result StatusCode ApiError × AppState V F
  ingest_state state payload =
      let expected_sig = compute_signature d payload state.llm_api_key in
      if not (text_eq payload.signature expected_sig)
      then (err (rejected (lit "Invalid signature for pod " ++ payload.pod_name)), state)
      else (ok accepted_202, record state { pending_state = some payload })

  -- A state that carries the signature that the controller's key gives it is accepted and replaces the
  -- pending state and nothing else; any other is rejected with the name of its pod, and the controller's
  -- state stays as it was.
  pub ingest_state_outcome :
      (state : AppState V F) (payload : AgentState V)
      → ((payload.signature ≡ compute_signature d payload state.llm_api_key)
          × (ingest_state state payload
              ≡ (ok accepted_202, record state { pending_state = some payload })))
        ⊎ ((payload.signature ≢ compute_signature d payload state.llm_api_key)
            × (ingest_state state payload
                ≡ (err (rejected (lit "Invalid signature for pod " ++ payload.pod_name)), state)))
  unfolding ingest_state
  ingest_state_outcome state payload =
      let expected = compute_signature d payload state.llm_api_key in
      let same = text_eq_iff payload.signature expected in
      elim (Bool-cases (text_eq payload.signature expected)) [
        | inl good ↦ inl (ground arith, ground arith)
        | inr bad ↦ inr (λ e. ground arith, ground arith)
      ]

  -- The signature does not protect what an agent has found: an accepted state may be replaced by any
  -- other that keeps the agent, the pod, the epoch and the signature, and is accepted as well.
  pub ingest_state-tampered :
      (state : AppState V F) (payload forged : AgentState V)
      → (ingest_state state payload).0 ≡ ok accepted_202
      → forged.agent_id ≡ payload.agent_id
      → forged.pod_name ≡ payload.pod_name
      → forged.dag.epoch ≡ payload.dag.epoch
      → forged.signature ≡ payload.signature
      → ingest_state state forged ≡ (ok accepted_202, record state { pending_state = some forged })
  unfolding ingest_state
  ingest_state-tampered state payload forged h a p e s =
      ground (arith, compute_signature-unbound d forged payload state.llm_api_key a p e)

-- ===== src/State/Signature.antt =====
-- src/state.rs, `compute_signature`: what the signature of a state binds, and what it does not.
use researcher_agent_kube_en.Base.{ℕ, ◌≡◌, ap, ◌<◌, ◌∷◌, ◌++◌, Text, arith, inr}
use researcher_agent_kube_en.Base.Decimal.{decimal, u64_mod, decimal-Lacks, decimal-injective}
use researcher_agent_kube_en.Base.Strings.Laws.{Lacks, split_unique}
use mathlib.Core.List.{append_assoc}
use researcher_agent_kube_en.Platform.{hash_hex, Digest, IsCollisionFree}
use researcher_agent_kube_en.State.{AgentState, signed_text, compute_signature}

decimal-Lacks_colon : (n : ℕ) → Lacks b':' (decimal n)
decimal-Lacks_colon n = decimal-Lacks b':' n (inr (omega arith))

-- A state as `AgentState` holds it: the names free of colons, the epoch a `u64`.
pub record IsNamed {V : Type 0} (s : AgentState V) : Type 0 where
  pub agent_plain : Lacks b':' s.agent_id
  pub pod_plain : Lacks b':' s.pod_name
  pub epoch_u64 : s.dag.epoch < u64_mod

-- If hashes do not collide, two states whose names hold no colon and whose epochs are below 2 ^ 64 have
-- the same signature only if agent, pod, epoch and secret are the same.
pub compute_signature-binds :
    (d : Digest) {V : Type 0} (s t : AgentState V) (k l : Text)
    → IsCollisionFree d
    → IsNamed s
    → IsNamed t
    → compute_signature d s k ≡ compute_signature d t l
    → (s.agent_id ≡ t.agent_id) × (s.pod_name ≡ t.pod_name) × (s.dag.epoch ≡ t.dag.epoch) × (k ≡ l)
unfolding compute_signature signed_text
compute_signature-binds d s t k l free ns nt e =
    let whole = free.sha256_injective _ _ (free.hex_injective _ _ e) in
    let (agent, r1) = split_unique b':' _ _ _ _ ns.agent_plain nt.agent_plain whole in
    let (pod, r2) = split_unique b':' _ _ _ _ ns.pod_plain nt.pod_plain r1 in
    let (epoch, secret) =
      split_unique b':' _ _ _ _ (decimal-Lacks_colon s.dag.epoch) (decimal-Lacks_colon t.dag.epoch)
        r2 in
    (agent, pod, decimal-injective _ _ ns.epoch_u64 nt.epoch_u64 epoch, secret)

-- The signature does not see the rest of the state: whatever is put in place of the namespace, the
-- time, the tasks, the task pointer and the semantic context, it stays the same.
pub compute_signature-unbound :
    (d : Digest) {V : Type 0} (s t : AgentState V) (k : Text)
    → s.agent_id ≡ t.agent_id
    → s.pod_name ≡ t.pod_name
    → s.dag.epoch ≡ t.dag.epoch
    → compute_signature d s k ≡ compute_signature d t k
unfolding compute_signature signed_text
compute_signature-unbound d s t k a p e = cc

-- With a colon in a name the text that is hashed no longer tells the names apart: what stands
-- behind a colon in the agent's name may as well stand in front of one in the pod's.
pub compute_signature-ambiguous :
    (d : Digest) {V : Type 0} (s t : AgentState V) (a b p k : Text)
    → s.agent_id ≡ a ++ b':' ∷ b
    → s.pod_name ≡ p
    → t.agent_id ≡ a
    → t.pod_name ≡ b ++ b':' ∷ p
    → s.dag.epoch ≡ t.dag.epoch
    → compute_signature d s k ≡ compute_signature d t k
unfolding compute_signature signed_text
compute_signature-ambiguous d s t a b p k sa sp ta tp e =
    ap (hash_hex d) (simp (sa, sp, ta, tp, e, append_assoc))

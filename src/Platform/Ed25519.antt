-- ===== src/Platform/Ed25519.antt =====
-- `ed25519_dalek`: keys and signatures.
use researcher_agent_kube_en.Base.{ℕ, ◌≡◌, Bool, true, List, Text}

pub record Ed25519 : Type 1 where
  pub SigningKey : Type 0
  pub VerifyingKey : Type 0
  pub Signature : Type 0
  pub verifying_key : SigningKey → VerifyingKey
  pub sign : SigningKey → Text → Signature
  pub signature_bytes : Signature → List ℕ
  pub key_bytes : VerifyingKey → List ℕ
  pub verify : VerifyingKey → Text → Signature → Bool

-- What was signed with a key is accepted under its verifying key.
pub record IsCorrect (e : Ed25519) : Type 0 where
  pub sign_verifies :
      (k : e.SigningKey) (m : Text) → e.verify (e.verifying_key k) m (e.sign k m) ≡ true

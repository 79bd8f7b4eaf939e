-- ===== src/Verify.antt =====
-- src/verify.rs: a payload is written to a temporary file, a prover or an interpreter runs on it, and
-- its output is judged. The temporary file is removed when a run ends, which is not modelled.
pub mod Parse
pub mod Run
pub mod Judgement
pub mod Success
use researcher_agent_kube_en.Base.{ℕ, Bool, List, Option, Result, Text, lit, unwrap_or}
use researcher_agent_kube_en.Base.Decimal.{decimal}
use researcher_agent_kube_en.Base.{◌++◌}

pub data VerifierBackend : Type 0 where
  lean4 : VerifierBackend
  z3 : VerifierBackend
  sandbox : (language expected_output : Text) (stdin_input : Option Text) → VerifierBackend

pub record VerificationEngine : Type 0 where
  pub lean_binary : Text
  pub z3_binary : Text
  pub work_dir : Text
  pub timeout_sec : ℕ  -- u64

pub record VerificationResult : Type 0 where
  pub success : Bool
  pub backend : Text
  pub stdout : Text
  pub stderr : Text
  pub tactic_goals : List Text
  pub error_message : Option Text

pub data VerifyError (Io Utf8 : Type 0) : Type 0 where
  io : Io → VerifyError Io Utf8
  timeout : ℕ → VerifyError Io Utf8
  binary_not_found : Text → VerifyError Io Utf8
  utf8 : Utf8 → VerifyError Io Utf8
  unsupported_language : Text → VerifyError Io Utf8

-- `Display`
unfoldable pub verify_error_text :
    {Io Utf8 : Type 0} → (Io → Text) → (Utf8 → Text) → VerifyError Io Utf8 → Text
verify_error_text io_text utf8_text (io e) = lit "Subprocess I/O error: " ++ io_text e
verify_error_text io_text utf8_text (timeout n) =
    lit "Verification timeout after " ++ (decimal n ++ lit "s")
verify_error_text io_text utf8_text (binary_not_found b) = lit "Binary not found: " ++ b
verify_error_text io_text utf8_text (utf8 e) = lit "UTF-8 decode error: " ++ utf8_text e
verify_error_text io_text utf8_text (unsupported_language l) =
    lit "Unsupported sandbox language: " ++ l

-- `VerificationEngine::new`, with the environment as a function.
unfoldable pub new : (Text → Option Text) → Text → ℕ → VerificationEngine
new var work_dir timeout_sec = record {
  lean_binary = unwrap_or (var (lit "LEAN4_BINARY")) (lit "lean");
  z3_binary = unwrap_or (var (lit "Z3_BINARY")) (lit "z3");
  work_dir = work_dir;
  timeout_sec = timeout_sec;
}

-- ===== src/Api/Verification.antt =====
-- src/api.rs, `api_verify`: a payload is verified, the attempt logged, and a success committed. The
-- handler holds the lock of the graph twice, once for the log and once for the commit: what other
-- tasks do to the graph and the files before each is an argument.
pub mod Effects
pub mod Accounts
pub mod Audit
use researcher_agent_kube_en.Base.{
  ℕ, Bool, true, false, ◌++◌, List, [], Option, none, some, Result, ok, err, Text, lit, text_eq,
  if◌then◌else◌, unwrap_or,
}
use researcher_agent_kube_en.Platform.{Digest, Files, Json, Timestamp, hash_hex}
use researcher_agent_kube_en.Platform.Subprocess.{Subprocess}
use researcher_agent_kube_en.FactGraph.{FactGraph, commit_fact, log_attempt}
use researcher_agent_kube_en.Verify.{
  VerifierBackend, VerificationResult, VerificationEngine, verify_error_text,
}
use researcher_agent_kube_en.Verify.Run.{verify}
use researcher_agent_kube_en.Api.{
  AppState, ApiError, rejected, internal, VerifyApiRequest, VerifyApiResponse,
}

-- The backend that a request names.
unfoldable pub backend_of : VerifyApiRequest → Result VerifierBackend ApiError
backend_of req =
    if text_eq req.backend (lit "lean4")
    then ok VerifierBackend.lean4
    else if text_eq req.backend (lit "z3")
    then ok VerifierBackend.z3
    else if text_eq req.backend (lit "sandbox")
    then ok (
        VerifierBackend.sandbox (unwrap_or req.sandbox_language (lit "python3"))
          (unwrap_or req.sandbox_expected_output []) req.sandbox_stdin)
    else err
        (rejected (lit "Unknown backend: " ++ (req.backend ++ lit ". Valid: lean4, z3, sandbox")))

-- What the two calls of `Uuid::new_v4` and of `Utc::now` give.
pub record Draws : Type 0 where
  pub attempt_id : Text
  pub submitted_at : Timestamp
  pub fact_id : Text
  pub verified_at : Timestamp

module _ (d : Digest) (fs : Files) (sp : Subprocess fs.World fs.IoError) (js : Json FactGraph) where
  -- The graph and the files, as one task leaves them to another.
  abbrev pub Shared : Type 0
  Shared = FactGraph × fs.World

  -- The section that logs the attempt; the error of a save is dropped.
  unfoldable pub log_result : VerifyApiRequest → VerificationResult → Draws → Shared → Shared
  log_result req result draws (graph, w) =
      let (r, graph', w') =
        log_attempt fs js d graph result.backend req.payload result.success result.stdout
          result.stderr result.tactic_goals result.error_message (unwrap_or req.epoch 0)
          req.fact_tags draws.attempt_id draws.submitted_at w in
      (graph', w')

  -- `Ok(Some(h)) => Some(h)`, `Ok(None) => Some(hash)`, `Err(e) => None`
  abbrev pub committed_hash : {E : Type 0} → Text → Result (Option Text) E → Option Text
  committed_hash hash (ok (some h)) = some h
  committed_hash hash (ok none) = some hash
  committed_hash hash (err e) = none

  -- The section that commits a success.
  unfoldable pub commit_result :
      VerifyApiRequest → VerificationResult → Draws → Shared → Option Text × Shared
  commit_result req result draws (graph, w) =
      let (r, graph', w') =
        commit_fact fs js d graph result.backend req.payload (unwrap_or req.epoch 0) req.fact_tags
          draws.fact_id draws.verified_at w in
      if result.success
      then (committed_hash (hash_hex d req.payload) r, (graph', w'))
      else (none, (graph, w))

  abbrev pub response : VerificationResult → Option Text → VerifyApiResponse
  response result fact_hash = record {
    success = result.success;
    backend = result.backend;
    stdout = result.stdout;
    stderr = result.stderr;
    tactic_goals = result.tactic_goals;
    error_message = result.error_message;
    fact_hash = fact_hash;
  }

  -- From the result of the verification on.
  unfoldable pub record_result :
      VerifyApiRequest
      → Draws
      → (before_log before_commit : Shared → Shared) → Result VerificationResult ApiError
      → Shared
      → Result VerifyApiResponse ApiError × Shared
  record_result req draws before_log before_commit (err e) shared = (err e, shared)
  record_result req draws before_log before_commit (ok result) shared =
      let logged = log_result req result draws (before_log shared) in
      let (fact_hash, shared') = commit_result req result draws (before_commit logged) in
      (ok (response result fact_hash), shared')

  -- The verification itself, its error as an `Internal` one.
  unfoldable pub run_verification :
      VerificationEngine
      → VerifierBackend
      → Text
      → fs.World
      → Result VerificationResult ApiError × fs.World
  run_verification engine backend payload w =
      let (r, w') = verify sp engine backend payload w in
      elim r [
        | ok result ↦ (ok result, w')
        | err e ↦ (err (internal (verify_error_text fs.io_text sp.utf8_text e)), w')
      ]

  unfoldable pub verify_and_record :
      {V F : Type 0}
      → AppState V F
      → VerifyApiRequest
      → Draws
      → (before_log before_commit : Shared → Shared) → Result VerifierBackend ApiError
      → fs.World
      → Result VerifyApiResponse ApiError × AppState V F × fs.World
  verify_and_record state req draws before_log before_commit (err e) w = (err e, state, w)
  verify_and_record state req draws before_log before_commit (ok backend) w =
      let (verified, w1) = run_verification state.verification_engine backend req.payload w in
      let (r, (graph, w2)) =
        record_result req draws before_log before_commit verified (state.fact_graph, w1) in
      (r, record state { fact_graph = graph }, w2)

  unfoldable pub api_verify :
      {V F : Type 0}
      → AppState V F
      → VerifyApiRequest
      → Draws
      → (before_log before_commit : Shared → Shared) → fs.World
      → Result VerifyApiResponse ApiError × AppState V F × fs.World
  unfolding backend_of verify_and_record
  api_verify state req draws before_log before_commit w =
      verify_and_record state req draws before_log before_commit (backend_of req) w

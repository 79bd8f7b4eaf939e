-- ===== src/Verify/Judgement.antt =====
-- src/verify.rs: what a result says of the run, and the runs that end without one.
use researcher_agent_kube_en.Base.{
  ℕ, ◌≢◌, ◌≡◌, false, not, ◌++◌, Option, none, some, ok, err, Text, lit, is_some, arith, inl, inr,
  Option-cases,
}
use researcher_agent_kube_en.Platform.Subprocess.{Subprocess, Command, timed_out}
use researcher_agent_kube_en.Verify.{
  VerifierBackend, VerificationEngine, VerificationResult, timeout, unsupported_language,
}
use researcher_agent_kube_en.Verify.Parse.{interpreter, parse_z3_result-unsat_line}
use researcher_agent_kube_en.Verify.Run.{
  run_command, await_output, run_lean4, run_z3, run_interpreter, run_sandbox, verify,
}

-- The name under which a backend's results are stored.
abbrev pub backend_name : VerifierBackend → Text
backend_name VerifierBackend.lean4 = lit "lean4"
backend_name VerifierBackend.z3 = lit "z3"
backend_name (VerifierBackend.sandbox language e i) = lit "sandbox-" ++ language

module _ {World Io : Type 0} (sp : Subprocess World Io) where
  -- A result has an error message exactly if it is no success, and names the backend that was asked,
  -- with the language of a sandbox.
  pub verify_result :
      (engine : VerificationEngine) (b : VerifierBackend) (payload : Text) (w : World)
      (r : VerificationResult)
      → (verify sp engine b payload w).0 ≡ ok r
      → (r.success ≡ not (is_some r.error_message)) × (r.backend ≡ backend_name b)
  unfolding verify run_lean4 run_z3 run_sandbox
  verify_result engine VerifierBackend.lean4 payload w r e = ground arith
  verify_result engine VerifierBackend.z3 payload w r e = ground arith
  verify_result engine (VerifierBackend.sandbox l x i) payload w r e = ground arith

  -- Z3's usual answer for a theorem, a line with `unsat`, is not counted as a success.
  pub run_z3-unsat_line :
      (engine : VerificationEngine) (payload : Text) (w : World) (r : VerificationResult)
      (before after : Text)
      → (run_z3 sp engine payload w).0 ≡ ok r
      → r.stdout ≡ before ++ (lit "unsat\n" ++ after)
      → r.success ≡ false
  unfolding run_z3
  run_z3-unsat_line engine payload w r before after e line =
      ground (arith, parse_z3_result-unsat_line r.stdout r.stderr before after line)

  run_command_late :
      (engine : VerificationEngine) (c : Command) (w : World)
      → ((n : ℕ) (c : Command) (w : World) → (sp.output n c w).0 ≡ timed_out)
      → (run_command sp engine c w).0 ≡ err (timeout engine.timeout_sec)
  unfolding run_command await_output
  run_command_late engine c w late = ground (arith, late engine.timeout_sec c w)

  -- A run that reaches the timeout ends without a result, on every backend.
  pub verify_timed_out :
      (engine : VerificationEngine) (b : VerifierBackend) (payload : Text) (w : World)
      (r : VerificationResult)
      → ((n : ℕ) (c : Command) (w : World) → (sp.output n c w).0 ≡ timed_out)
      → (verify sp engine b payload w).0 ≢ ok r
  unfolding verify
  verify_timed_out engine VerifierBackend.lean4 payload w r late e = grind (arith, run_command_late)
  verify_timed_out engine VerifierBackend.z3 payload w r late e = grind (arith, run_command_late)
  verify_timed_out engine (VerifierBackend.sandbox l x i) payload w r late e =
      grind (arith, run_command_late)

  -- A language that the table does not have is refused before anything is written or run.
  pub run_sandbox-unsupported :
      (engine : VerificationEngine) (code language expected : Text) (input : Option Text)
      (w : World)
      → interpreter language ≡ none
      → run_sandbox sp engine code language expected input w
        ≡ (err (unsupported_language language), w)
  unfolding run_sandbox run_interpreter
  run_sandbox-unsupported engine code language expected input w e = rw e

  -- The text on standard input never reaches the program: only whether there is one shows in the run.
  pub run_sandbox-ignores_input :
      (engine : VerificationEngine) (code language expected input other : Text) (w : World)
      → run_sandbox sp engine code language expected (some input) w
        ≡ run_sandbox sp engine code language expected (some other) w
  unfolding run_sandbox run_interpreter
  run_sandbox-ignores_input engine code language expected input other w =
      elim (Option-cases (interpreter language)) [
        | inl unknown ↦ rw unknown
        | inr (found, e) ↦ rw e
      ]

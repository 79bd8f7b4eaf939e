-- ===== src/Verify/Run.antt =====
-- src/verify.rs: the runs of the provers and of the sandbox, and their dispatch. Each step is a `?` or
-- an `await` of the source, in its order.
use researcher_agent_kube_en.Base.{
  ℕ, false, not, ◌&&◌, [], ◌∷◌, ◌++◌, Option, none, some, Result, ok, err, Text, lit, text_eq,
  if◌then◌else◌, is_some,
}
use researcher_agent_kube_en.Base.Strings.{trim}
use researcher_agent_kube_en.FactGraph.{is_empty}
use researcher_agent_kube_en.Platform.Subprocess.{
  Subprocess, Command, Output, Outcome, timed_out, spawn_failed, finished,
}
use researcher_agent_kube_en.Verify.{
  VerifierBackend, VerificationEngine, VerificationResult, VerifyError, io, timeout, utf8,
  unsupported_language,
}
use researcher_agent_kube_en.Verify.Parse.{parse_lean_tactic_goals, parse_z3_result, interpreter}

module _ {World Io : Type 0} (sp : Subprocess World Io) where
  open sp use {Utf8}

  abbrev pub Error : Type 0
  Error = VerifyError Io Utf8

  -- A step that may fail and changes the world.
  abbrev pub M : Type 0 → Type 0
  M A = World → Result A Error × World

  infixl 5 ◌>>=◌ ◌>>◌
  abbrev pub ◌>>=◌ : {A B : Type 0} → M A → (A → M B) → M B
  ◌>>=◌ m f w = let (r, w') = m w in elim r [ ok a ↦ f a w' | err e ↦ (err e, w') ]

  abbrev pub ◌>>◌ : {A B : Type 0} → M A → M B → M B
  m >> k = m >>= λ _. k

  abbrev pub pure : {A : Type 0} → Result A Error → M A
  pure r w = (r, w)

  -- `map_err(VerifyError::Io)?`
  abbrev pub try_io : {A : Type 0} → (World → Result A Io × World) → M A
  try_io m w = let (r, w') = m w in elim r [ ok a ↦ (ok a, w') | err e ↦ (err (io e), w') ]

  -- `String::from_utf8(…)?`
  abbrev pub try_utf8 : Result Text Utf8 → Result Text Error
  try_utf8 (ok s) = ok s
  try_utf8 (err e) = err (utf8 e)

  -- The file with the payload, in the engine's directory; the result is its path.
  unfoldable pub write_payload : VerificationEngine → (prefix suffix payload : Text) → M Text
  write_payload engine prefix suffix payload = do
    path ← try_io (sp.tempfile_in engine.work_dir prefix suffix)
    try_io (sp.create path)
    try_io (sp.write_all path payload)
    try_io (sp.flush path)
    pure (ok path)

  unfoldable pub await_output : ℕ → Outcome Io Utf8 → Result (Output Utf8) Error
  await_output timeout_sec timed_out = err (timeout timeout_sec)
  await_output timeout_sec (spawn_failed e) = err (io e)
  await_output timeout_sec (finished out) = ok out

  -- The command under the engine's timeout.
  unfoldable pub run_command : VerificationEngine → Command → M (Output Utf8)
  unfolding await_output
  run_command engine command w =
      let (outcome, w') = sp.output engine.timeout_sec command w in
      (await_output engine.timeout_sec outcome, w')

  unfoldable pub lean4_result : Output Utf8 → (stdout stderr : Text) → VerificationResult
  lean4_result out stdout stderr =
      let success = out.status_success && is_empty stderr in
      record {
        success = success;
        backend = lit "lean4";
        stdout = stdout;
        stderr = stderr;
        tactic_goals = parse_lean_tactic_goals stdout;
        error_message = if success then none else some (lit "Lean4 proof incomplete or errored");
      }

  unfoldable pub run_lean4 : VerificationEngine → Text → M VerificationResult
  unfolding lean4_result
  run_lean4 engine payload = do
    path ← write_payload engine (lit "raket_lean_") (lit ".lean") payload
    out ← run_command engine (record {
      program = engine.lean_binary;
      args = lit "--run" ∷ path ∷ [];
      stdin_piped = false;
    })
    stdout ← pure (try_utf8 out.stdout)
    stderr ← pure (try_utf8 out.stderr)
    pure (ok (lean4_result out stdout stderr))

  unfoldable pub z3_result : (stdout stderr : Text) → VerificationResult
  z3_result stdout stderr =
      let success = parse_z3_result stdout stderr in
      record {
        success = success;
        backend = lit "z3";
        stdout = stdout;
        stderr = stderr;
        tactic_goals = [];
        error_message = if success then none else some (lit "Z3 returned sat or unknown");
      }

  unfoldable pub run_z3 : VerificationEngine → Text → M VerificationResult
  unfolding z3_result
  run_z3 engine payload = do
    path ← write_payload engine (lit "raket_z3_") (lit ".smt2") payload
    out ←
        run_command engine
          (record { program = engine.z3_binary; args = path ∷ []; stdin_piped = false })
    stdout ← pure (try_utf8 out.stdout)
    stderr ← pure (try_utf8 out.stderr)
    pure (ok (z3_result stdout stderr))

  unfoldable pub sandbox_message : Output Utf8 → (stdout stderr expected_output : Text) → Text
  sandbox_message out stdout stderr expected_output =
      if not out.status_success
      then lit "Process exited with status "
        ++ (out.status_text ++ (lit " — stderr: " ++ trim stderr))
      else lit "Output mismatch — expected: "
        ++ (sp.debug_text (trim expected_output) ++ (lit ", got: " ++ sp.debug_text (trim stdout)))

  unfoldable pub sandbox_result :
      Output Utf8 → (language stdout stderr expected_output : Text) → VerificationResult
  unfolding sandbox_message
  sandbox_result out language stdout stderr expected_output =
      let output_matches = text_eq (trim stdout) (trim expected_output) in
      let success = out.status_success && output_matches in
      record {
        success = success;
        backend = lit "sandbox-" ++ language;
        stdout = stdout;
        stderr = stderr;
        tactic_goals = [];
        error_message =
            if success then none else some (sandbox_message out stdout stderr expected_output);
      }

  -- The run with the extension and the interpreter that the language's table gives.
  unfoldable pub run_interpreter :
      VerificationEngine
      → (code language expected_output : Text) → Option Text
      → Option (Text × Text)
      → M VerificationResult
  unfolding sandbox_result
  run_interpreter engine code language expected_output stdin_input none =
      pure (err (unsupported_language language))
  run_interpreter engine code language expected_output stdin_input (some (ext, program)) = do
    path ← write_payload engine (lit "raket_sandbox_") ext code
    out ←
        run_command engine
          (record { program = program; args = path ∷ []; stdin_piped = is_some stdin_input })
    stdout ← pure (try_utf8 out.stdout)
    stderr ← pure (try_utf8 out.stderr)
    pure (ok (sandbox_result out language stdout stderr expected_output))

  unfoldable pub run_sandbox :
      VerificationEngine
      → (code language expected_output : Text) → Option Text
      → M VerificationResult
  unfolding run_interpreter
  run_sandbox engine code language expected_output stdin_input =
      run_interpreter engine code language expected_output stdin_input (interpreter language)

  unfoldable pub verify : VerificationEngine → VerifierBackend → Text → M VerificationResult
  unfolding run_lean4 run_z3 run_sandbox
  verify engine VerifierBackend.lean4 payload = run_lean4 engine payload
  verify engine VerifierBackend.z3 payload = run_z3 engine payload
  verify engine (VerifierBackend.sandbox language expected_output stdin_input) payload =
      run_sandbox engine payload language expected_output stdin_input

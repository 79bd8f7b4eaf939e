-- ===== src/Verify/Success.antt =====
-- src/verify.rs: which runs count as a success.
use researcher_agent_kube_en.Base.{
  ◌≡◌, ◌↔◌, Bool, true, false, [], ◌∷◌, ◌++◌, Option, none, some, ok, Text, lit, text_eq_iff, arith,
  inl, inr, ◌⊎◌, Result-cases, refl, is_some,
}
use researcher_agent_kube_en.Base.Strings.{trim}
use researcher_agent_kube_en.Base.Strings.Laws.{IsIn, contains_iff, contains-false_iff}
use researcher_agent_kube_en.FactGraph.{is_empty}
use researcher_agent_kube_en.Platform.Subprocess.{
  Subprocess, Command, Output, Outcome, timed_out, spawn_failed, finished,
}
use researcher_agent_kube_en.Verify.{VerifierBackend, VerificationEngine, VerificationResult}
use researcher_agent_kube_en.Verify.Parse.{parse_z3_result, interpreter}
use researcher_agent_kube_en.Verify.Run.{
  M, ◌>>=◌, pure, try_utf8, write_payload, run_command, await_output, lean4_result, z3_result,
  sandbox_result, run_lean4, run_z3, run_interpreter, run_sandbox, verify,
}

-- The program is the one that the backend runs.
abbrev pub IsProgram : VerificationEngine → VerifierBackend → Text → Type 0
IsProgram engine VerifierBackend.lean4 program = program ≡ engine.lean_binary
IsProgram engine VerifierBackend.z3 program = program ≡ engine.z3_binary
IsProgram engine (VerifierBackend.sandbox language expected i) program =
    (ext : Text) × (interpreter language ≡ some (ext, program))

-- What each backend asks of a run: how the process has exited, and what it has written.
abbrev pub Passed : VerifierBackend → (exited_well : Bool) → (stdout stderr : Text) → Type 0
Passed VerifierBackend.lean4 exited_well stdout stderr = (exited_well ≡ true) × (stderr ≡ [])
Passed VerifierBackend.z3 exited_well stdout stderr =
    IsIn (lit "unsat") (stdout ++ stderr) × ¬ IsIn (lit "sat\n") (stdout ++ stderr)
Passed (VerifierBackend.sandbox language expected i) exited_well stdout stderr =
    (exited_well ≡ true) × (trim stdout ≡ trim expected)

parse_z3_result_iff :
    (stdout stderr : Text)
    → (parse_z3_result stdout stderr ≡ true)
      ↔ (IsIn (lit "unsat") (stdout ++ stderr) × ¬ IsIn (lit "sat\n") (stdout ++ stderr))
unfolding parse_z3_result
parse_z3_result_iff stdout stderr =
    let s = stdout ++ stderr in
    (
      λ e. (
        (contains_iff s (lit "unsat")).0 (ground arith),
        (contains-false_iff s (lit "sat\n")).0 (ground arith),
      ),
      λ (found, absent).
          let e = (contains_iff s (lit "unsat")).1 found in
          let f = (contains-false_iff s (lit "sat\n")).1 absent in ground arith,
    )

is_empty_iff : (s : Text) → (is_empty s ≡ true) ↔ (s ≡ [])
is_empty_iff [] = (λ e. refl, λ e. refl)
is_empty_iff (c ∷ s) = (λ e. ground arith, λ e. ground arith)

Outcome-cases :
    {Io Utf8 : Type 0} (o : Outcome Io Utf8)
    → (o ≡ timed_out)
      ⊎ (((e : Io) × (o ≡ spawn_failed e)) ⊎ ((out : Output Utf8) × (o ≡ finished out)))
Outcome-cases timed_out = inl refl
Outcome-cases (spawn_failed e) = inr (inl (e, refl))
Outcome-cases (finished out) = inr (inr (out, refl))

module _ {World Io : Type 0} (sp : Subprocess World Io) where
  -- The steps that the three backends share, up to the judgement of the output.
  abbrev judged :
      (engine : VerificationEngine) (prefix suffix payload : Text) (command : Text → Command)
      (judge : Output sp.Utf8 → (stdout stderr : Text) → VerificationResult)
      → M sp VerificationResult
  judged engine prefix suffix payload command judge =
      ◌>>=◌ sp (write_payload sp engine prefix suffix payload) (λ path.
        ◌>>=◌ sp (run_command sp engine (command path)) (λ out.
          ◌>>=◌ sp (pure sp (try_utf8 sp out.stdout)) (λ stdout.
            ◌>>=◌ sp (pure sp (try_utf8 sp out.stderr))
              (λ stderr. pure sp (ok (judge out stdout stderr))))))

  -- A run that has ended, with its output and the result that is made of it.
  record Ran (engine : VerificationEngine) (command : Text → Command)
      (judge : Output sp.Utf8 → (stdout stderr : Text) → VerificationResult)
      (r : VerificationResult) : Type 0 where
    path : Text
    started : World
    out : Output sp.Utf8
    stdout : Text
    stderr : Text
    ended : (sp.output engine.timeout_sec (command path) started).0 ≡ finished out
    printed : out.stdout ≡ ok stdout
    complained : out.stderr ≡ ok stderr
    result : r ≡ judge out stdout stderr

  judged-Ran :
      (engine : VerificationEngine) (prefix suffix payload : Text) (command : Text → Command)
      (judge : Output sp.Utf8 → (stdout stderr : Text) → VerificationResult) (w : World)
      (r : VerificationResult)
      → (judged engine prefix suffix payload command judge w).0 ≡ ok r
      → Ran engine command judge r
  unfolding run_command await_output
  judged-Ran engine prefix suffix payload command judge w r e =
      let wrote = write_payload sp engine prefix suffix payload w in
      elim (Result-cases wrote.0) [
        | inr (x, failed) ↦ let no_result : ⊥ = ground arith in absurd no_result
        | inl (path, named) ↦
            elim (Outcome-cases (sp.output engine.timeout_sec (command path) wrote.1).0) [
              | inl late ↦ let no_result : ⊥ = ground arith in absurd no_result
              | inr (inl (x, failed)) ↦ let no_result : ⊥ = ground arith in absurd no_result
              | inr (inr (out, ended)) ↦ elim (Result-cases out.stdout) [
                | inr (x, failed) ↦ let no_result : ⊥ = ground arith in absurd no_result
                | inl (stdout, printed) ↦ elim (Result-cases out.stderr) [
                  | inr (x, failed) ↦ let no_result : ⊥ = ground arith in absurd no_result
                  | inl (stderr, complained) ↦ record {
                    path = path;
                    started = wrote.1;
                    out = out;
                    stdout = stdout;
                    stderr = stderr;
                    ended = ended;
                    printed = printed;
                    complained = complained;
                    result = ground arith;
                  }
                ]
              ]
            ]
      ]

  abbrev lean_command : VerificationEngine → Text → Command
  lean_command engine path = record {
    program = engine.lean_binary;
    args = lit "--run" ∷ path ∷ [];
    stdin_piped = false;
  }

  abbrev z3_command : VerificationEngine → Text → Command
  z3_command engine path = record {
    program = engine.z3_binary;
    args = path ∷ [];
    stdin_piped = false;
  }

  abbrev sandbox_command : Text → Option Text → Text → Command
  sandbox_command program input path = record {
    program = program;
    args = path ∷ [];
    stdin_piped = is_some input;
  }

  lean4_result_iff :
      (out : Output sp.Utf8) (stdout stderr : Text)
      → ((lean4_result sp out stdout stderr).success ≡ true)
        ↔ ((out.status_success ≡ true) × (stderr ≡ []))
  unfolding lean4_result
  lean4_result_iff out stdout stderr = (
    λ e. (ground arith, (is_empty_iff stderr).0 (ground arith)),
    λ (well, empty). let quiet = (is_empty_iff stderr).1 empty in ground arith,
  )

  sandbox_result_iff :
      (out : Output sp.Utf8) (language stdout stderr expected : Text)
      → ((sandbox_result sp out language stdout stderr expected).success ≡ true)
        ↔ ((out.status_success ≡ true) × (trim stdout ≡ trim expected))
  unfolding sandbox_result
  sandbox_result_iff out language stdout stderr expected =
      let same = text_eq_iff (trim stdout) (trim expected) in
      (λ e. (ground arith, ground arith), λ (well, matches). ground arith)

  run_interpreter-Ran :
      (engine : VerificationEngine) (payload language expected : Text) (input : Option Text)
      (found : Option (Text × Text)) (w : World) (r : VerificationResult)
      → (run_interpreter sp engine payload language expected input found w).0 ≡ ok r
      → (ext : Text) × (program : Text) × (found ≡ some (ext, program))
        × Ran engine
            (sandbox_command program input)
            (λ out stdout stderr. sandbox_result sp out language stdout stderr expected)
            r
  unfolding run_interpreter
  run_interpreter-Ran engine payload language expected input none w r e =
      let no_result : ⊥ = ground arith in absurd no_result
  run_interpreter-Ran engine payload language expected input (some (ext, program)) w r e = (
    ext,
    program,
    refl,
    judged-Ran engine (lit "raket_sandbox_") ext payload (sandbox_command program input)
        (λ out stdout stderr. sandbox_result sp out language stdout stderr expected) w r e,
  )

  -- A verification that answers a result has run the backend's own program, which has ended within the
  -- timeout, and reports what this has written. It is a success exactly if: the process has exited well and
  -- left standard error empty, for Lean, whatever goals are open on standard output; `unsat` stands in
  -- what Z3 has written, and `sat` in front of a newline stands nowhere in it, whatever its exit status;
  -- the process has exited well and printed what was expected, up to white space at both ends, for the
  -- sandbox.
  pub verify_success :
      (engine : VerificationEngine) (b : VerifierBackend) (payload : Text) (w : World)
      (r : VerificationResult)
      → (verify sp engine b payload w).0 ≡ ok r
      → (command : Command) × (started : World) × (out : Output sp.Utf8) × (IsProgram engine b
          command.program)
        × ((sp.output engine.timeout_sec command started).0 ≡ finished out)
        × (out.stdout ≡ ok r.stdout)
        × (out.stderr ≡ ok r.stderr)
        × ((r.success ≡ true) ↔ Passed b out.status_success r.stdout r.stderr)
  unfolding verify run_lean4 run_z3 run_sandbox z3_result lean4_result sandbox_result
  verify_success engine VerifierBackend.lean4 payload w r e =
      let ran =
        judged-Ran engine (lit "raket_lean_") (lit ".lean") payload (lean_command engine)
          (lean4_result sp) w r e in
      (
        lean_command engine ran.path,
        ran.started,
        ran.out,
        refl,
        ran.ended,
        rw ran.result ran.printed,
        rw ran.result ran.complained,
        rw ran.result (lean4_result_iff ran.out ran.stdout ran.stderr),
      )
  verify_success engine VerifierBackend.z3 payload w r e =
      let ran =
        judged-Ran engine (lit "raket_z3_") (lit ".smt2") payload (z3_command engine)
          (λ out. z3_result sp) w r e in
      (
        z3_command engine ran.path,
        ran.started,
        ran.out,
        refl,
        ran.ended,
        rw ran.result ran.printed,
        rw ran.result ran.complained,
        rw ran.result (parse_z3_result_iff ran.stdout ran.stderr),
      )
  verify_success engine (VerifierBackend.sandbox language expected input) payload w r e =
      let (ext, program, known, ran) =
        run_interpreter-Ran engine payload language expected input (interpreter language) w r e in
      (
        sandbox_command program input ran.path,
        ran.started,
        ran.out,
        (ext, known),
        ran.ended,
        rw ran.result ran.printed,
        rw ran.result ran.complained,
        rw ran.result (sandbox_result_iff ran.out language ran.stdout ran.stderr expected),
      )

-- ===== src/Examples/Provers.antt =====
-- Runs of the three backends with processes that succeed, that print what Z3 prints, and that hang.
use researcher_agent_kube_en.Base.{
  ◌≡◌, ◌↔◌, refl, true, false, not, [], none, ok, Text, lit, Map, is_some, text_eq,
}
use researcher_agent_kube_en.Base.Strings.{trim}
use researcher_agent_kube_en.Platform.Subprocess.{Command, Output, timed_out, finished}
use researcher_agent_kube_en.Verify.{VerifierBackend, VerificationEngine, VerificationResult}
use researcher_agent_kube_en.Verify.Parse.{interpreter}
use researcher_agent_kube_en.Verify.Run.{
  verify, run_z3, run_sandbox, write_payload, run_command, z3_result,
}
use researcher_agent_kube_en.Verify.Judgement.{backend_name, verify_result, run_z3-unsat_line}
use researcher_agent_kube_en.Verify.Success.{IsProgram, Passed, verify_success}
use researcher_agent_kube_en.Examples.{prover}

abbrev pub engine : VerificationEngine
engine = record {
  lean_binary = lit "lean";
  z3_binary = lit "z3";
  work_dir = lit "/tmp/";
  timeout_sec = 30;
}

-- A process that ends well and prints `s`.
abbrev pub prints : Text → Output (Unit {0})
prints s = record { status_success = true; status_text = lit "0"; stdout = ok s; stderr = ok [] }

abbrev pub python : VerifierBackend
python = VerifierBackend.sandbox (lit "python3") (lit "42\n") none

abbrev pub answered : VerificationResult
answered = record {
  success = true;
  backend = lit "sandbox-python3";
  stdout = lit "42";
  stderr = [];
  tactic_goals = [];
  error_message = none;
}

python_run :
    (verify (prover (finished (prints (lit "42")))) engine python (lit "print(42)") []).0
    ≡ ok answered
unfolding verify run_sandbox trim lit interpreter text_eq write_payload run_command
python_run = refl

verify_result_example :
    (answered.success ≡ not (is_some answered.error_message))
    × (answered.backend ≡ backend_name python)
verify_result_example =
    verify_result (prover (finished (prints (lit "42")))) engine python (lit "print(42)") []
      answered python_run

verify_success_example :
    (command : Command) × (started : Map Text) × (out : Output (Unit {0})) × (IsProgram engine
      python command.program)
    × (((prover (finished (prints (lit "42")))).output 30 command started).0 ≡ finished out)
    × (out.stdout ≡ ok (lit "42"))
    × (out.stderr ≡ ok [])
    × ((true ≡ true) ↔ Passed python out.status_success (lit "42") [])
verify_success_example =
    verify_success (prover (finished (prints (lit "42")))) engine python (lit "print(42)") []
      answered python_run

abbrev proved : VerificationResult
proved = z3_result (prover timed_out) (lit "unsat\n") []

z3_run :
    (run_z3 (prover (finished (prints (lit "unsat\n")))) engine (lit "(check-sat)") []).0
    ≡ ok proved
unfolding run_z3 write_payload run_command
z3_run = refl

run_z3-unsat_line_example : proved.success ≡ false
unfolding lit z3_result
run_z3-unsat_line_example =
    run_z3-unsat_line (prover (finished (prints (lit "unsat\n")))) engine (lit "(check-sat)") []
      proved [] [] z3_run refl

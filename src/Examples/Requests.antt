-- ===== src/Examples/Requests.antt =====
-- A daemon without files that serves a verification, into which other requests come.
use researcher_agent_kube_en.Base.{ℕ, refl, true, [], ◌∷◌, none, Text, lit, text_eq, Map}
use researcher_agent_kube_en.Base.Strings.{trim}
use researcher_agent_kube_en.Verify
use researcher_agent_kube_en.Verify.{VerificationResult, VerificationEngine}
use researcher_agent_kube_en.Verify.Parse.{interpreter}
use researcher_agent_kube_en.Verify.Run.{verify, run_sandbox, write_payload, run_command}
use researcher_agent_kube_en.FactGraph
use researcher_agent_kube_en.Ledger
use researcher_agent_kube_en.Api.{AddGroundVectorRequest}
use researcher_agent_kube_en.Api.Verification.{backend_of, run_verification}
use researcher_agent_kube_en.Api.Server.{
  Server, Task, verified, logged, ingest_section, verify_section, log_section, add_section,
  commit_section, Steps, done, more,
}
use researcher_agent_kube_en.Api.Server as Server
use researcher_agent_kube_en.Api.Server.Soundness.{IsSound, Steps-IsSound}
use researcher_agent_kube_en.Api.Server.Permanence.{Extends, Steps-Extends}
use researcher_agent_kube_en.Daemon.Startup.{add_ground_vectors}
use researcher_agent_kube_en.Daemon.Serving.{serving, first_run-IsSound}
use researcher_agent_kube_en.Examples.{plain_digest, disk, spoken}
use researcher_agent_kube_en.Examples.Stores.{graph_json, ledger_json}
use researcher_agent_kube_en.Examples.Pods.{config, good}
use researcher_agent_kube_en.Examples.Daemons.{raw}
use researcher_agent_kube_en.Examples.Handlers.{shell, request, draws}

abbrev engine : VerificationEngine
engine = Verify.new (λ v. none) (lit "/tmp") 30

abbrev first : Server Text ℕ (Map Text)
first =
    serving config engine (FactGraph.new (lit "facts.json"))
      (add_ground_vectors spoken (Ledger.new (lit "ledger.json")) (raw ∷ [])) []

abbrev result : VerificationResult
result = record {
  success = true;
  backend = lit "sandbox-python3";
  stdout = lit "42";
  stderr = [];
  tactic_goals = [];
  error_message = none;
}

abbrev vector : AddGroundVectorRequest ℕ
vector = record {
  label = lit "l";
  content = lit "c";
  weight = 5;
  rotation_policy = lit "immediate";
}

-- Between the sections of the verification an agent's state comes in and a vector is added.
abbrev checked : Server Text ℕ (Map Text)
checked =
    verify_section plain_digest disk shell graph_json ledger_json request draws
      (Verify.VerifierBackend.sandbox (lit "python3") (lit "42") none) first

abbrev taken_in : Server Text ℕ (Map Text)
taken_in = ingest_section plain_digest disk shell graph_json ledger_json good checked

abbrev on_log : Server Text ℕ (Map Text)
on_log =
    log_section plain_digest disk shell graph_json ledger_json request result draws
      (logged request result draws ∷ []) taken_in

abbrev steered : Server Text ℕ (Map Text)
steered = add_section plain_digest disk shell graph_json ledger_json vector (lit "e9") 3 on_log

abbrev committed : Server Text ℕ (Map Text)
committed =
    commit_section plain_digest disk shell graph_json ledger_json request result draws [] steered

run : Steps plain_digest disk shell graph_json ledger_json first committed
unfolding verify_section ingest_section log_section add_section backend_of run_verification verify
    run_sandbox trim lit interpreter text_eq write_payload run_command
run =
    more first steered committed
      (more first on_log steered
        (more first taken_in on_log
          (more first checked taken_in
            (more first first checked (done first) (Server.verify first request draws _ refl))
            (Server.ingest checked good))
          (Server.log taken_in request result draws [] [] refl))
        (Server.add on_log vector (lit "e9") 3))
      (Server.commit steered request result draws [] [] refl)

first_run-IsSound_example : IsSound plain_digest committed
first_run-IsSound_example =
    first_run-IsSound spoken plain_digest disk shell graph_json ledger_json config engine
      (lit "facts.json") (lit "ledger.json") (raw ∷ []) [] committed run

first-IsSound : IsSound plain_digest first
first-IsSound =
    first_run-IsSound spoken plain_digest disk shell graph_json ledger_json config engine
      (lit "facts.json") (lit "ledger.json") (raw ∷ []) [] first (done first)

Steps-IsSound_example : IsSound plain_digest committed
Steps-IsSound_example =
    Steps-IsSound plain_digest disk shell graph_json ledger_json run first-IsSound

Steps-Extends_example : Extends first.app.fact_graph committed.app.fact_graph
Steps-Extends_example = Steps-Extends plain_digest disk shell graph_json ledger_json run

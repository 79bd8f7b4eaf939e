-- ===== src/Examples/LostUpdate.antt =====
-- A vector that the client puts into the file, and one that the daemon adds after it.
use researcher_agent_kube_en.Base.{
  ◌≡◌, refl, none, ok, Text, lit, ℕ, arith, text_eq, if◌then◌else◌, [],
}
use researcher_agent_kube_en.Base.Maps.{lookup, contains_key, insert}
use researcher_agent_kube_en.Platform.{Json}
use researcher_agent_kube_en.Ledger.{Ledger, add_entry, immediate, load_ledger, save_ledger}
use researcher_agent_kube_en.Api.{AppState, AddGroundVectorRequest}
use researcher_agent_kube_en.Api.Vectors.{add_ground_vector, policy_of}
use researcher_agent_kube_en.Commands.{Surroundings}
use researcher_agent_kube_en.Commands.Vectors.{add_vector}
use researcher_agent_kube_en.Commands.Overwritten.{add_vector-lost}
use researcher_agent_kube_en.Examples.{disk, disk-IsReadBack}
use researcher_agent_kube_en.Examples.Signing.{served}
use researcher_agent_kube_en.Examples.Stores.{ledger}
use researcher_agent_kube_en.Examples.CommandLine.{cli, before, with_new, files, env_of}

abbrev running : AppState Text ℕ
running = record served { ledger = ledger }

abbrev request : AddGroundVectorRequest ℕ
request = record {
  label = lit "l";
  content = lit "c";
  weight = 5;
  rotation_policy = lit "immediate";
}

abbrev kept : Ledger ℕ
kept = (add_entry ledger (lit "l") (lit "c") 5 immediate (lit "e9") 6).0

-- A JSON that tells the two ledgers apart.
abbrev three_ledgers : Json (Ledger ℕ)
three_ledgers = record {
  SerdeError = Unit;
  serde_text = λ e. lit "no JSON";
  to_string = λ l. ok (if contains_key (lit "e3") l.entries then lit "{file}" else lit "{kept}");
  from_str = λ s.
      if text_eq s (lit "{before}")
      then ok before
      else (if text_eq s (lit "{file}")
          then ok (record with_new { path = [] })
          else ok (record kept { path = [] }));
}

abbrev env : Surroundings ℕ
env = env_of three_ledgers

add_vector-lost_example :
    let (r, (w1, out1)) =
      add_vector env cli
        (lit "new")
        (lit "topic")
        500
        (lit "next_epoch")
        (lit "e3")
        4
        (files, []) in
    let (r', state', w2) = add_ground_vector disk three_ledgers running request (lit "e9") 6 w1 in
    (r ≡ ok tt)
    × (load_ledger disk three_ledgers (lit "ledger.json") w1 ≡ ok with_new)
    × (load_ledger disk three_ledgers (lit "ledger.json") w2 ≡ ok kept)
    × (lookup (lit "e3") kept.entries ≡ none)
unfolding lookup lit load_ledger save_ledger contains_key text_eq policy_of add_entry insert
add_vector-lost_example =
    add_vector-lost env cli running request (lit "new") (lit "topic") 500 (lit "next_epoch")
      (lit "e3") (lit "e9") 4 6 files [] ledger refl refl refl disk-IsReadBack (λ e. ground arith)
      refl (λ e. ground arith)
      (record { json = lit "{file}"; printed = refl; read = refl; saved = refl })
      (record { json = lit "{kept}"; printed = refl; read = refl; saved = refl })

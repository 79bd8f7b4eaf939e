-- ===== src/Examples/Stores.antt =====
-- A graph with one fact, a ledger with two entries, and what the operations make of them on the disk.
use researcher_agent_kube_en.Base.{
  ℕ, ◌+◌, ◌≡◌, refl, List, ◌⊎◌, true, false, not, [], ◌∷◌, none, some, ok, Text, lit, text_eq,
  arith, length, retain, ◌>>=◌,
}
use researcher_agent_kube_en.Base.Maps.{lookup}
use researcher_agent_kube_en.Platform.{Json}
use researcher_agent_kube_en.FactGraph.{
  FactGraph, FactNode, commit_fact, contains_hash, load_fact_graph, save_fact_graph,
}
use researcher_agent_kube_en.FactGraph.Facts.{IsIndexed, commit_fact_outcome}
use researcher_agent_kube_en.FactGraph.Persistence.{load_fact_graph-save}
use researcher_agent_kube_en.Ledger.{
  Ledger, LedgerEntry, immediate, next_epoch, fresh_entry, neutralize_entry, active_ground_vectors,
}
use researcher_agent_kube_en.Ledger.Entries.{IsConsistent}
use researcher_agent_kube_en.Ledger.Active.{active_ground_vectors-neutralize_entry}
use researcher_agent_kube_en.FactGraph.Refinement.{
  Call, commit, log, view, perform_all, run_calls, view-run_calls,
}
use researcher_agent_kube_en.Ledger.Refinement.{Change, add, mark, run_changes, view-run_changes}
use researcher_agent_kube_en.Ledger.Refinement as Changes
use researcher_agent_kube_en.Examples.{plain_digest, disk, disk-IsReadBack, json_of, thousandths}

abbrev pub theorem : Text
theorem = lit "1 + 1 = 2"

abbrev pub fact : FactNode
fact = record {
  id = lit "f1";
  proof_hash = theorem;
  payload_summary = theorem;
  backend = lit "z3";
  verified_at = 5;
  epoch = 0;
  tags = lit "sum" ∷ [];
}

abbrev pub graph : FactGraph
graph = record { nodes = (theorem, fact) ∷ []; attempts = []; path = lit "facts.json" }

abbrev pub graph_json : Json FactGraph
graph_json = json_of (lit "{graph}") (record graph { path = [] })

pub graph-IsIndexed : IsIndexed graph
unfolding lookup lit
graph-IsIndexed = record { keyed = (refl, tt); distinct = (refl, tt); short = (omega arith, tt) }

abbrev other : Text
other = lit "2 + 2 = 4"

commit_fact_outcome_example :
    let (r, g', w') =
      commit_fact disk graph_json plain_digest graph (lit "lean4") theorem 3 [] (lit "f2") 9 [] in
    ((contains_hash graph theorem ≡ true) × (r ≡ ok none) × (g' ≡ graph) × (w' ≡ []))
    ⊎ ((contains_hash graph theorem ≡ false)
        × (length g'.nodes ≡ length graph.nodes + 1)
        × (r ≡ (save_fact_graph disk graph_json g' []).0 >>= λ _. ok (some theorem))
        × (w' ≡ (save_fact_graph disk graph_json g' []).1))
commit_fact_outcome_example =
    commit_fact_outcome disk graph_json plain_digest graph (lit "lean4") theorem 3 [] (lit "f2") 9
      []

load_fact_graph-save_example :
    load_fact_graph disk graph_json (lit "facts.json") (save_fact_graph disk graph_json graph []).1
    ≡ ok graph
unfolding save_fact_graph lit text_eq
load_fact_graph-save_example =
    load_fact_graph-save disk graph_json graph [] (lit "{graph}") disk-IsReadBack
      (λ e. ground arith) refl refl refl

abbrev pub entry : Text → LedgerEntry ℕ
entry id = fresh_entry (lit "topic") (lit "what counts") 1000 next_epoch id 1

abbrev pub ledger : Ledger ℕ
ledger = record {
  entries = (lit "e1", entry (lit "e1")) ∷ (lit "e2", entry (lit "e2")) ∷ [];
  path = lit "ledger.json";
}

abbrev pub ledger_json : Json (Ledger ℕ)
ledger_json = json_of (lit "{ledger}") (record ledger { path = [] })

pub ledger-IsConsistent : IsConsistent ledger
unfolding lookup lit fresh_entry text_eq
ledger-IsConsistent = record {
  keyed = (refl, (refl, tt));
  flagged = (refl, (refl, tt));
  distinct = (refl, (refl, tt));
}

active_ground_vectors-neutralize_entry_example :
    active_ground_vectors thousandths plain_digest
      (neutralize_entry {Io = Unit} {Serde = Unit} ledger (lit "e1") 8).1
    ≡ retain
        (λ gv. not (text_eq gv.objective_id (lit "e1")))
        (active_ground_vectors thousandths plain_digest ledger)
active_ground_vectors-neutralize_entry_example =
    active_ground_vectors-neutralize_entry thousandths plain_digest Unit Unit ledger (lit "e1") 8
      ledger-IsConsistent

-- A fact that the graph knows, one that it does not, and a failed attempt.
abbrev calls : List Call
calls =
    commit (lit "lean4") theorem 3 [] (lit "f2") 9
    ∷ log (lit "z3") other false [] [] [] none 3 [] (lit "t1") 9
    ∷ commit (lit "lean4") other 3 [] (lit "f3") 9
    ∷ []

view-run_calls_example :
    view (run_calls plain_digest disk graph_json calls (graph, [])).0
    ≡ perform_all plain_digest calls (view graph)
view-run_calls_example = view-run_calls plain_digest disk graph_json calls graph []

abbrev changes : List (Change ℕ)
changes =
    add (lit "new") (lit "topic") 500 immediate (lit "e3") 4
    ∷ mark (lit "e1") 5
    ∷ mark (lit "e7") 6
    ∷ []

view-run_changes_example :
    (Changes.view (run_changes Unit Unit changes ledger)
      ≡ Changes.perform_all changes (Changes.view ledger))
    × IsConsistent (run_changes Unit Unit changes ledger)
view-run_changes_example = view-run_changes Unit Unit changes ledger ledger-IsConsistent

-- ===== src/FactGraph/Persistence.antt =====
-- src/fact_graph.rs, the file of the graph: what is loaded, and what a save leaves for the next load.
use researcher_agent_kube_en.Base.{◌≡◌, false, [], ok, Text, arith, ◌≢◌, ◌⊎◌}
use researcher_agent_kube_en.Platform.{Json, IsReadBack}
use researcher_agent_kube_en.Platform
use researcher_agent_kube_en.FactGraph.{
  FactGraph, new, load_fact_graph, save_fact_graph, write_json,
}

module _ (fs : Platform.Files) (js : Json FactGraph) where
  -- A graph that was saved under a path is loaded back as it was, provided that the file system returns what was
  -- written and that the JSON of the graph reads back as the graph without its path.
  pub load_fact_graph-save :
      (g : FactGraph) (w : fs.World) (json : Text)
      → IsReadBack fs
      → g.path ≢ []
      → js.to_string g ≡ ok json
      → js.from_str json ≡ ok (record g { path = [] })
      → (save_fact_graph fs js g w).0 ≡ ok tt
      → load_fact_graph fs js g.path (save_fact_graph fs js g w).1 ≡ ok g
  unfolding load_fact_graph save_fact_graph write_json
  load_fact_graph-save g w json back named printed read saved =
      ground (arith, back.written_exists g.path json w, back.written_read g.path json w)

  -- Where there is no file, or no path, the load starts with an empty graph bound to the path.
  pub load_fact_graph-missing :
      (path : Text) (w : fs.World)
      → (path ≡ []) ⊎ (fs.try_exists path w ≡ ok false)
      → load_fact_graph fs js path w ≡ ok (new path)
  unfolding load_fact_graph
  load_fact_graph-missing path w h = ground arith

  -- A graph without a path is never written.
  pub save_fact_graph-ephemeral :
      (g : FactGraph) (w : fs.World) → g.path ≡ [] → save_fact_graph fs js g w ≡ (ok tt, w)
  unfolding save_fact_graph
  save_fact_graph-ephemeral g w e = ground arith

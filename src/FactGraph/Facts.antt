-- ===== src/FactGraph/Facts.antt =====
-- src/fact_graph.rs, `commit_fact`: the facts under a commit.
use researcher_agent_kube_en.Base.{
  ℕ, ◌≡◌, refl, ◌+◌, ◌≤◌, true, false, List, none, some, ok, Text, text_eq, text_eq_iff, arith,
  if◌then◌else◌, Bool-cases, length, length-take-le, ◌⊎◌, inl, inr, unwrap_or, ◌||◌, ◌>>=◌,
}
use researcher_agent_kube_en.Base.Maps.{lookup, contains_key, All, Distinct}
use researcher_agent_kube_en.Base.Maps.Laws.{
  lookup-insert, All-insert, Distinct-insert, length-insert_new, contains_key-lookup,
}
use researcher_agent_kube_en.Platform.{Digest, Json, Timestamp, hash_hex}
use researcher_agent_kube_en.Platform
use researcher_agent_kube_en.FactGraph.{
  FactNode, FactGraph, commit_fact, fact_node, save_fact_graph, contains_hash,
}

-- Every fact stands under its own hash, no hash twice, with a summary of at most 256 characters.
pub record IsIndexed (g : FactGraph) : Type 0 where
  pub keyed : All (λ k n. n.proof_hash ≡ k) g.nodes
  pub distinct : Distinct g.nodes
  pub short : All (λ k n. length n.payload_summary ≤ 256) g.nodes

module _ (fs : Platform.Files) (js : Json FactGraph) (d : Digest) (g : FactGraph)
    (backend payload : Text) (epoch : ℕ) (tags : List Text) (id : Text) (now : Timestamp)
    (w : fs.World) where
  abbrev node : FactNode
  node = fact_node d backend payload epoch tags id now

  -- A commit keeps the index, on every outcome.
  pub commit_fact-IsIndexed :
      IsIndexed g → IsIndexed (commit_fact fs js d g backend payload epoch tags id now w).1
  unfolding commit_fact
  commit_fact-IsIndexed v = elim (Bool-cases (contains_key (hash_hex d payload) g.nodes)) [
    | inl old ↦ rw old v
    | inr new ↦ rw new (record {
      keyed = All-insert _ (hash_hex d payload) node g.nodes (unfold fact_node in refl) v.keyed;
      distinct = Distinct-insert (hash_hex d payload) node g.nodes v.distinct;
      short =
          All-insert _ (hash_hex d payload) node g.nodes
            (unfold fact_node in length-take-le 256 payload) v.short;
    })
  ]

  -- What is found under each hash after a commit: the new fact under the hash of its payload, if
  -- there was none, and elsewhere what was found before. It holds whether or not the save succeeds.
  pub commit_fact-lookup :
      (hash : Text)
      → lookup hash (commit_fact fs js d g backend payload epoch tags id now w).1.nodes ≡ (
          if text_eq (hash_hex d payload) hash
          then some
              (unwrap_or (lookup hash g.nodes) (fact_node d backend payload epoch tags id now))
          else lookup hash g.nodes)
  unfolding commit_fact contains_key
  commit_fact-lookup hash = ground (
    arith,
    text_eq_iff (hash_hex d payload) hash,
    lookup-insert (hash_hex d payload) hash node g.nodes,
  )

  -- Facts are permanent: what was found is found unchanged after a commit, whatever its outcome.
  pub commit_fact-keeps :
      (hash : Text) (n : FactNode)
      → lookup hash g.nodes ≡ some n
      → lookup hash (commit_fact fs js d g backend payload epoch tags id now w).1.nodes ≡ some n
  commit_fact-keeps hash n e = ground (arith, commit_fact-lookup hash)

  -- After a commit the store knows exactly the hashes that it knew before and that of the payload.
  pub contains_hash-commit_fact :
      (hash : Text)
      → contains_hash (commit_fact fs js d g backend payload epoch tags id now w).1 hash
        ≡ (text_eq (hash_hex d payload) hash || contains_hash g hash)
  unfolding contains_hash contains_key
  contains_hash-commit_fact hash = ground (arith, commit_fact-lookup hash)

  -- A commit whose hash is known changes neither the graph nor the files and answers `None`. Any
  -- other adds exactly one fact, saves the graph, and answers the hash, or the error of the save.
  pub commit_fact_outcome :
      let (r, g', w') = commit_fact fs js d g backend payload epoch tags id now w in
      ((contains_hash g (hash_hex d payload) ≡ true) × (r ≡ ok none) × (g' ≡ g) × (w' ≡ w))
      ⊎ ((contains_hash g (hash_hex d payload) ≡ false)
          × (length g'.nodes ≡ length g.nodes + 1)
          × (r ≡ (save_fact_graph fs js g' w).0 >>= λ _. ok (some (hash_hex d payload)))
          × (w' ≡ (save_fact_graph fs js g' w).1))
  unfolding commit_fact contains_hash
  commit_fact_outcome = elim (Bool-cases (contains_key (hash_hex d payload) g.nodes)) [
    | inl old ↦ inl (old, rw old, rw old, rw old)
    | inr new ↦ inr (
      new,
      rw new (length-insert_new (hash_hex d payload) node g.nodes (contains_key-lookup _ _ new)),
      rw new,
      rw new,
    )
  ]

  -- The hash of a commit is that of the payload.
  pub commit_fact-hash :
      (h : Text)
      → (commit_fact fs js d g backend payload epoch tags id now w).0 ≡ ok (some h)
      → h ≡ hash_hex d payload
  unfolding commit_fact
  commit_fact-hash h e = ground arith

  -- A commit leaves the log of attempts alone.
  pub commit_fact-attempts :
      (commit_fact fs js d g backend payload epoch tags id now w).1.attempts ≡ g.attempts
  unfolding commit_fact
  commit_fact-attempts = ground arith

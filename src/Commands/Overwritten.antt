-- ===== src/Commands/Overwritten.antt =====
-- src/main.rs and src/api.rs: the ledger's file between `add-vector` and a daemon that runs.
use researcher_agent_kube_en.Base.{
  ◌≡◌, ◌≢◌, ap, ◌∙◌, List, [], none, ok, Text, arith, text_eq_iff, lit, ◌++◌,
}
use researcher_agent_kube_en.Base.Maps.{lookup}
use researcher_agent_kube_en.Platform.{Files, Json, IsReadBack, Timestamp}
use researcher_agent_kube_en.Config.{Cli}
use researcher_agent_kube_en.Ledger.{Ledger, add_entry, load_ledger, save_ledger}
use researcher_agent_kube_en.Ledger.Entries.{add_entry-lookup}
use researcher_agent_kube_en.Ledger.Persistence.{load_ledger-save_at}
use researcher_agent_kube_en.Api.{AppState, AddGroundVectorRequest}
use researcher_agent_kube_en.Api.Vectors.{policy_of, add_ground_vector, add_ground_vector_saves}
use researcher_agent_kube_en.Commands.{Surroundings}
use researcher_agent_kube_en.Commands.Console.{base_url}
use researcher_agent_kube_en.Commands.Vectors.{answered, sent_policy, add_vector}
use researcher_agent_kube_en.Commands.Offline.{add_vector-file}

-- A save of the ledger succeeds, and its JSON reads back as the ledger without its path.
pub record CanSave {F : Type 0} (fs : Files) (js : Json (Ledger F)) (l : Ledger F) (w : fs.World)
    : Type 0 where
  pub json : Text
  pub printed : js.to_string l ≡ ok json
  pub read : js.from_str json ≡ ok (record l { path = [] })
  pub saved : (save_ledger fs js l w).0 ≡ ok tt

-- An addition leaves an identifier unknown that was unknown and is not its own.
add_entry-unknown :
    {F : Type 0} (l : Ledger F) (req : AddGroundVectorRequest F) (id other : Text) (now : Timestamp)
    → other ≢ id
    → lookup other l.entries ≡ none
    → lookup other
        (add_entry l req.label req.content req.weight
          (policy_of req.rotation_policy)
          id
          now).0.entries
      ≡ none
add_entry-unknown l req id other now differs unknown =
    let found =
      add_entry-lookup l req.label req.content req.weight (policy_of req.rotation_policy) id now in
    ground (arith, found.1 other, text_eq_iff id other)

module _ {V F : Type 0} (env : Surroundings F) (cli : Cli F) where
  open env use {fs, client}

  daemon_saves :
      (state : AppState V F) (req : AddGroundVectorRequest F) (id : Text) (now : Timestamp)
      (w : fs.World)
      → let kept =
          (add_entry state.ledger req.label req.content req.weight
            (policy_of req.rotation_policy)
            id
            now).0 in
        state.ledger.path ≡ cli.ledger_path
        → IsReadBack fs
        → cli.ledger_path ≢ []
        → CanSave fs env.ledger kept w
        → let (r, state', w') = add_ground_vector fs env.ledger state req id now w in
          (state'.ledger ≡ kept) × (load_ledger fs env.ledger cli.ledger_path w' ≡ ok kept)
  unfolding add_entry
  daemon_saves state req id now w same back named can =
      let policy = policy_of req.rotation_policy in
      let kept = (add_entry state.ledger req.label req.content req.weight policy id now).0 in
      let outcome = add_ground_vector_saves fs env.ledger state req id now w in
      (
        outcome.0,
        ap (load_ledger fs env.ledger cli.ledger_path) outcome.1
            ∙ load_ledger-save_at fs env.ledger cli.ledger_path kept w can.json same back named
                can.printed can.read can.saved,
      )

  -- A lost update: where a daemon that runs refuses `add-vector`, or does not answer in time, the
  -- command succeeds and the file holds the entry under the identifier that the client has drawn.
  -- With the daemon's next addition the file holds the daemon's ledger instead, in which that
  -- identifier is not found. It holds if the file can be loaded, its path is the daemon's and not
  -- empty, the file system returns what was written, both ledgers can be saved as JSON that reads
  -- back as the ledger without its path, and the client's identifier is new: no entry of the
  -- daemon's ledger has it, and the daemon's next entry has another. A daemon that refused
  -- because its own save failed may still hold an entry with the same content under an identifier
  -- of its own.
  pub add_vector-lost :
      (state : AppState V F) (req : AddGroundVectorRequest F) (label content : Text) (weight : F)
      (policy behind id : Text) (now later : Timestamp) (w : fs.World) (out : List Text)
      (l : Ledger F)
      → let sent = client.post_json (base_url cli ++ lit "/api/v1/ledger/vectors") (record {
        label = label;
        content = content;
        weight = weight;
        rotation_policy = sent_policy policy;
      }) in
        let file = (add_entry l label content weight (policy_of policy) behind now).0 in
        let kept =
          (add_entry state.ledger req.label req.content req.weight
            (policy_of req.rotation_policy)
            id
            later).0 in
        let (r, (w1, out1)) = add_vector env cli label content weight policy behind now (w, out) in
        let (r', state', w2) = add_ground_vector fs env.ledger state req id later w1 in
        answered env (sent w).0 ≡ none
        → load_ledger fs env.ledger cli.ledger_path (sent w).1 ≡ ok l
        → state.ledger.path ≡ cli.ledger_path
        → IsReadBack fs
        → cli.ledger_path ≢ []
        → lookup behind state.ledger.entries ≡ none
        → behind ≢ id
        → CanSave fs env.ledger file (sent w).1
        → CanSave fs env.ledger kept w1
        → (r ≡ ok tt)
          × (load_ledger fs env.ledger cli.ledger_path w1 ≡ ok file)
          × (load_ledger fs env.ledger cli.ledger_path w2 ≡ ok kept)
          × (lookup behind kept.entries ≡ none)
  add_vector-lost state req label content weight policy behind id now later w out l refused loaded
        same back named unknown differs by_client by_daemon =
      let (done, held) =
        add_vector-file env cli label content weight policy behind now w out l by_client.json
          refused loaded back named by_client.printed by_client.read by_client.saved in
      let (w1, _) = (add_vector env cli label content weight policy behind now (w, out)).1 in
      (
        done,
        held,
        (daemon_saves state req id later w1 same back named by_daemon).1,
        add_entry-unknown state.ledger req id behind later differs unknown,
      )

-- ===== src/Commands/Offline.antt =====
-- src/main.rs, the subcommands that change the ledger, when the daemon does not answer well.
use researcher_agent_kube_en.Base.{
  ◌≡◌, ◌≢◌, refl, ap, ◌∙◌, ◌++◌, List, [], none, Result, ok, err, Text, lit, arith, true,
  text_eq_refl, text_eq_iff,
}
use researcher_agent_kube_en.Base.Steps.{◌>>=◌, pure}
use researcher_agent_kube_en.Base.Maps.{lookup, contains_key, modify}
use researcher_agent_kube_en.Platform.{IsReadBack, Timestamp}
use researcher_agent_kube_en.Config.{Cli}
use researcher_agent_kube_en.Ledger.{
  Ledger, not_found, load_ledger, save_ledger, add_entry, neutralize_entry, neutralize as mark,
}
use researcher_agent_kube_en.Ledger.Persistence.{load_ledger-path, load_ledger-save_at}
use researcher_agent_kube_en.Api.Vectors.{policy_of}
use researcher_agent_kube_en.Commands.{Surroundings, ledger}
use researcher_agent_kube_en.Commands.Console.{M, lift, print, base_url}
use researcher_agent_kube_en.Commands.Vectors.{
  answered, ask, or_file, sent_policy, report_added, add_to_file, add_vector, neutralize_in_file,
  neutralize,
}

next_epoch-immediate : lit "next_epoch" ≢ lit "immediate"
unfolding lit
next_epoch-immediate e = ground arith

module _ {F : Type 0} (env : Surroundings F) (cli : Cli F) where
  open env use {fs, client}

  ask-none :
      (m : fs.World → Result client.Response client.HttpError × fs.World)
      (report : client.Response → M env (Unit {0})) (file : M env (Unit {0})) (w : fs.World)
      (out : List Text)
      → answered env (m w).0 ≡ none
      → (ask env m >>= λ a. or_file env a report file) (w, out) ≡ file ((m w).1, out)
  unfolding ◌>>=◌
  ask-none m report file w out e = rw e refl

  policy_of-sent_policy : (policy : Text) → policy_of (sent_policy policy) ≡ policy_of policy
  unfolding policy_of sent_policy
  policy_of-sent_policy policy = ground (
    arith,
    text_eq_refl (lit "immediate"),
    text_eq_iff (lit "next_epoch") (lit "immediate"),
    next_epoch-immediate,
  )

  add_to_file_runs :
      (label content : Text) (weight : F) (policy id : Text) (now : Timestamp) (w : fs.World)
      (out : List Text) (l : Ledger F)
      → load_ledger fs env.ledger cli.ledger_path w ≡ ok l
      → let l' = (add_entry l label content weight (policy_of policy) id now).0 in
        (save_ledger fs env.ledger l' w).0 ≡ ok tt
        → ((add_to_file env cli label content weight (sent_policy policy) id now (w, out)).0
            ≡ ok tt)
          × ((add_to_file env cli label content weight (sent_policy policy) id now (w, out)).1.0
              ≡ (save_ledger fs env.ledger l' w).1)
  unfolding add_to_file ◌>>=◌ lift print pure
  add_to_file_runs label content weight policy id now w out l loaded saved =
      let same = policy_of-sent_policy policy in (ground arith, ground arith)

  -- `add-vector` without an answer of the daemon, or with one that is no success, changes the
  -- file: the command succeeds, and the next load gives the ledger with the entry. It holds if
  -- the file can be loaded, the path of the ledger is not empty, the changed ledger is printed as
  -- JSON that reads back as that ledger without its path (which the JSON of a weight that is no
  -- finite number does not), the save succeeds, and the file system returns what was written.
  pub add_vector-file :
      (label content : Text) (weight : F) (policy id : Text) (now : Timestamp) (w : fs.World)
      (out : List Text) (l : Ledger F) (json : Text)
      → let sent = client.post_json (base_url cli ++ lit "/api/v1/ledger/vectors") (record {
        label = label;
        content = content;
        weight = weight;
        rotation_policy = sent_policy policy;
      }) in
        let l' = (add_entry l label content weight (policy_of policy) id now).0 in
        answered env (sent w).0 ≡ none
        → load_ledger fs env.ledger cli.ledger_path (sent w).1 ≡ ok l
        → IsReadBack fs
        → cli.ledger_path ≢ []
        → env.ledger.to_string l' ≡ ok json
        → env.ledger.from_str json ≡ ok (record l' { path = [] })
        → (save_ledger fs env.ledger l' (sent w).1).0 ≡ ok tt
        → let (r, (w', out')) = add_vector env cli label content weight policy id now (w, out) in
          (r ≡ ok tt) × (load_ledger fs env.ledger cli.ledger_path w' ≡ ok l')
  unfolding add_vector add_entry
  add_vector-file label content weight policy id now w out l json silent loaded back named printed
        read saved =
      let sent = client.post_json (base_url cli ++ lit "/api/v1/ledger/vectors") (record {
        label = label;
        content = content;
        weight = weight;
        rotation_policy = sent_policy policy;
      }) in
      let w1 = (sent w).1 in
      let l' = (add_entry l label content weight (policy_of policy) id now).0 in
      let file = add_to_file env cli label content weight (sent_policy policy) id now in
      let run = ask-none sent (report_added env) file w out silent in
      let (done, written) =
        add_to_file_runs label content weight policy id now w1 out l loaded saved in
      (
        ap (λ r. r.0) run ∙ done,
        ap (λ x. load_ledger fs env.ledger cli.ledger_path x) (ap (λ r. r.1.0) run ∙ written)
            ∙ load_ledger-save_at fs env.ledger cli.ledger_path l' w1 json
                (load_ledger-path fs env.ledger cli.ledger_path w1 l loaded) back named printed read
                saved,
      )

  neutralize_in_file_unknown :
      (id : Text) (now : Timestamp) (w : fs.World) (out : List Text) (l : Ledger F)
      → load_ledger fs env.ledger cli.ledger_path w ≡ ok l
      → lookup id l.entries ≡ none
      → ((neutralize_in_file env cli id now (w, out)).0 ≡ err (ledger (not_found id)))
        × ((neutralize_in_file env cli id now (w, out)).1.0 ≡ w)
  unfolding neutralize_in_file ◌>>=◌ lift print neutralize_entry contains_key
  neutralize_in_file_unknown id now w out l loaded unknown = (ground arith, ground arith)

  -- `neutralize` of an identifier that the file does not know fails with its name and writes nothing,
  -- if the daemon is silent or refuses too.
  pub neutralize-file_unknown :
      (id : Text) (now : Timestamp) (w : fs.World) (out : List Text) (l : Ledger F)
      → let sent =
          client.post
            (base_url cli ++ (lit "/api/v1/ledger/vectors/" ++ (id ++ lit "/neutralize"))) in
        answered env (sent w).0 ≡ none
        → load_ledger fs env.ledger cli.ledger_path (sent w).1 ≡ ok l
        → lookup id l.entries ≡ none
        → let (r, (w', out')) = neutralize env cli id now (w, out) in
          (r ≡ err (ledger (not_found id))) × (w' ≡ (sent w).1)
  unfolding neutralize
  neutralize-file_unknown id now w out l silent loaded unknown =
      let url = base_url cli ++ (lit "/api/v1/ledger/vectors/" ++ (id ++ lit "/neutralize")) in
      let run = ask-none (client.post url) _ (neutralize_in_file env cli id now) w out silent in
      let (failed, same) =
        neutralize_in_file_unknown id now (client.post url w).1 out l loaded unknown in
      (ap (λ r. r.0) run ∙ failed, ap (λ r. r.1.0) run ∙ same)

  neutralize_in_file_runs :
      (id : Text) (now : Timestamp) (w : fs.World) (out : List Text) (l : Ledger F)
      → load_ledger fs env.ledger cli.ledger_path w ≡ ok l
      → contains_key id l.entries ≡ true
      → let l' : Ledger F = record l { entries = modify id (mark now) l.entries } in
        (save_ledger fs env.ledger l' w).0 ≡ ok tt
        → ((neutralize_in_file env cli id now (w, out)).0 ≡ ok tt)
          × ((neutralize_in_file env cli id now (w, out)).1.0 ≡ (save_ledger fs env.ledger l' w).1)
  unfolding neutralize_in_file ◌>>=◌ lift print neutralize_entry
  neutralize_in_file_runs id now w out l loaded known saved = (ground arith, ground arith)

  -- `neutralize` of an identifier that the file knows, without an answer of the daemon or with
  -- one that is no success: the command succeeds, and the next load gives the ledger with the
  -- entry marked, under the conditions of `add_vector-file`.
  pub neutralize-file :
      (id : Text) (now : Timestamp) (w : fs.World) (out : List Text) (l : Ledger F) (json : Text)
      → let sent =
          client.post
            (base_url cli ++ (lit "/api/v1/ledger/vectors/" ++ (id ++ lit "/neutralize"))) in
        let l' : Ledger F = record l { entries = modify id (mark now) l.entries } in
        answered env (sent w).0 ≡ none
        → load_ledger fs env.ledger cli.ledger_path (sent w).1 ≡ ok l
        → contains_key id l.entries ≡ true
        → IsReadBack fs
        → cli.ledger_path ≢ []
        → env.ledger.to_string l' ≡ ok json
        → env.ledger.from_str json ≡ ok (record l' { path = [] })
        → (save_ledger fs env.ledger l' (sent w).1).0 ≡ ok tt
        → let (r, (w', out')) = neutralize env cli id now (w, out) in
          (r ≡ ok tt) × (load_ledger fs env.ledger cli.ledger_path w' ≡ ok l')
  unfolding neutralize
  neutralize-file id now w out l json silent loaded known back named printed read saved =
      let url = base_url cli ++ (lit "/api/v1/ledger/vectors/" ++ (id ++ lit "/neutralize")) in
      let w1 = (client.post url w).1 in
      let l' : Ledger F = record l { entries = modify id (mark now) l.entries } in
      let run = ask-none (client.post url) _ (neutralize_in_file env cli id now) w out silent in
      let (done, written) = neutralize_in_file_runs id now w1 out l loaded known saved in
      (
        ap (λ r. r.0) run ∙ done,
        ap (λ x. load_ledger fs env.ledger cli.ledger_path x) (ap (λ r. r.1.0) run ∙ written)
            ∙ load_ledger-save_at fs env.ledger cli.ledger_path l' w1 json
                (load_ledger-path fs env.ledger cli.ledger_path w1 l loaded) back named printed read
                saved,
      )

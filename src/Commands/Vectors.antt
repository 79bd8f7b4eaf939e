-- ===== src/Commands/Vectors.antt =====
-- src/main.rs, the subcommands `list-vectors`, `add-vector` and `neutralize`. What a change of the
-- ledger's file draws, an identifier and the time, is an argument.
use researcher_agent_kube_en.Base.{
  List, [], ◌∷◌, ◌++◌, Option, none, some, Result, ok, err, Text, lit, text_eq, is_some,
  if◌then◌else◌,
}
use researcher_agent_kube_en.Base.Steps.{◌>>=◌, ◌>>◌, pure}
use researcher_agent_kube_en.Base.Maps.{values}
use researcher_agent_kube_en.Platform.{Timestamp}
use researcher_agent_kube_en.Config.{Cli}
use researcher_agent_kube_en.Ledger.{
  Ledger, LedgerEntry, RotationPolicy, immediate, next_epoch, load_ledger, save_ledger, add_entry,
  neutralize_entry,
}
use researcher_agent_kube_en.Api.Vectors.{policy_of}
use researcher_agent_kube_en.Commands.{Surroundings, http, json, ledger}
use researcher_agent_kube_en.Commands.Console.{
  M, Error, lift, fetch, print, or_local, print_table, pad, base_url,
}

abbrev pub entry_header : List Text
unfolding pad
entry_header =
    pad 36 (lit "ID")
    ∷ pad 20 (lit "LABEL")
    ∷ pad 6 (lit "WEIGHT")
    ∷ pad 10 (lit "POLICY")
    ∷ pad 10 (lit "STATUS")
    ∷ lit "CONTENT"
    ∷ []

abbrev pub policy_text : RotationPolicy → Text
policy_text immediate = lit "immediate"
policy_text next_epoch = lit "next_epoch"

-- `match policy.as_str()`: the policy that is sent.
unfoldable pub sent_policy : Text → Text
sent_policy policy = if text_eq policy (lit "immediate") then lit "immediate" else lit "next_epoch"

module _ {F : Type 0} (env : Surroundings F) where
  open env use {fs, client}

  unfoldable pub entry_cells : LedgerEntry F → List Text
  unfolding pad
  entry_cells v =
      pad 36 v.id
      ∷ pad 20 v.label
      ∷ pad 6 (env.show_weight v.weight)
      ∷ pad 10 (policy_text v.rotation_policy)
      ∷ pad 10 (if is_some v.neutralized_at then lit "NEUTRALIZED" else lit "ACTIVE")
      ∷ v.content
      ∷ []

  abbrev pub load : Cli F → M env (Ledger F)
  load cli = lift env ledger (λ w. (load_ledger fs env.ledger cli.ledger_path w, w))

  abbrev pub save : Ledger F → M env (Unit {0})
  save l = lift env ledger (save_ledger fs env.ledger l)

  unfoldable pub list_vectors : Cli F → M env (Unit {0})
  unfolding entry_header entry_cells
  list_vectors cli = do
    fetched ← fetch env env.entries (base_url cli ++ lit "/api/v1/ledger/vectors")
    vectors ← or_local env fetched (do l ← load cli; pure (ok (values l.entries)))
    print_table env (lit "Ledger contains no steering ground vectors.") entry_header entry_cells
        vectors

  -- The answer, if there is one with a status of success.
  abbrev pub answered : Result client.Response client.HttpError → Option client.Response
  answered (err e) = none
  answered (ok resp) = if client.is_success resp then some resp else none

  -- A request that the daemon answers: any other end of it is `none`.
  abbrev pub ask :
      (fs.World → Result client.Response client.HttpError × fs.World)
      → M env (Option client.Response)
  ask m (w, out) = let (r, w') = m w in (ok (answered r), (w', out))

  -- `resp.json().await?`
  abbrev pub read_value : client.Response → Result env.Value (Error env)
  read_value resp = elim (client.body resp) [
    | err e ↦ err (http e)
    | ok s ↦ elim (env.value.from_str s) [ ok v ↦ ok v | err e ↦ err (json e) ]
  ]

  -- The change of the file, when the daemon has not answered well.
  unfoldable pub add_to_file :
      Cli F
      → (label content : Text) (weight : F) (policy id : Text) (now : Timestamp) → M env (Unit {0})
  unfolding add_entry policy_of
  add_to_file cli label content weight policy id now = do
    print env (
        lit
          "Controller daemon not responding. Applying modifications directly to ledger file on disk..."
        ∷ [])
    l ← load cli
    let added = add_entry l label content weight (policy_of policy) id now
    save added.0
    print env (
        lit "Successfully committed new vector directly to disk:"
        ∷ (lit "  ID:       " ++ added.1)
        ∷ (lit "  Ledger:   " ++ cli.ledger_path)
        ∷ lit
            "  Note:     Daemon is offline; any immediate rotation will not trigger automatically."
        ∷ [])

  unfoldable pub report_added : client.Response → M env (Unit {0})
  report_added resp = do
    res ← pure (read_value resp)
    print env (
        lit "Successfully added vector via running controller API:"
        ∷ (lit "  ID:       " ++ env.field res (lit "id"))
        ∷ (lit "  Rotation: " ++ env.field res (lit "rotation"))
        ∷ [])

  -- `match` on the answer.
  abbrev pub or_file :
      Option client.Response
      → (client.Response → M env (Unit {0}))
      → M env (Unit {0})
      → M env (Unit {0})
  or_file none report file = file
  or_file (some resp) report file = report resp

  unfoldable pub add_vector :
      Cli F
      → (label content : Text) (weight : F) (policy id : Text) (now : Timestamp) → M env (Unit {0})
  unfolding sent_policy add_to_file report_added
  add_vector cli label content weight policy id now = do
    answer ← ask (
        client.post_json (base_url cli ++ lit "/api/v1/ledger/vectors") (record {
          label = label;
          content = content;
          weight = weight;
          rotation_policy = sent_policy policy;
        }))
    or_file answer report_added (add_to_file cli label content weight (sent_policy policy) id now)

  unfoldable pub neutralize_in_file : Cli F → (id : Text) (now : Timestamp) → M env (Unit {0})
  unfolding neutralize_entry
  neutralize_in_file cli id now = do
    print env (
        lit
          "Controller daemon not responding. Applying modifications directly to ledger file on disk..."
        ∷ [])
    l ← load cli
    let marked = neutralize_entry l id now
    lift env ledger (λ w. (marked.0, w))
    save marked.1
    print env ((lit "Successfully neutralized vector " ++ (id ++ lit " directly on disk.")) ∷ [])

  unfoldable pub neutralize : Cli F → (id : Text) (now : Timestamp) → M env (Unit {0})
  unfolding neutralize_in_file
  neutralize cli id now = do
    answer ←
        ask (
          client.post
            (base_url cli ++ (lit "/api/v1/ledger/vectors/" ++ (id ++ lit "/neutralize"))))
    or_file answer
        (λ resp. print env (
          (lit "Successfully neutralized vector " ++ (id ++ lit " via running controller API."))
          ∷ []))
        (neutralize_in_file cli id now)

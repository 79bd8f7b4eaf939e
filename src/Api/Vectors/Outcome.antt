-- ===== src/Api/Vectors/Outcome.antt =====
-- src/api.rs, `add_ground_vector`: its outcomes, in the words of the request.
use researcher_agent_kube_en.Base.{
  ◌≡◌, refl, ap, sym, ◌∙◌, some, false, ◌||◌, none, Result, ok, err, Text, lit, text_eq,
  if◌then◌else◌, arith, inl, inr, ◌⊎◌,
}
use researcher_agent_kube_en.Base.Maps.{lookup}
use researcher_agent_kube_en.Platform.{Files, Json, Timestamp}
use researcher_agent_kube_en.Ledger.{
  Ledger, LedgerEntry, LedgerError, fresh_entry, RotationPolicy, immediate, next_epoch, add_entry,
  save_ledger,
}
use researcher_agent_kube_en.Ledger.Entries.{add_entry-lookup}
use researcher_agent_kube_en.Api.{AppState, internal, AddGroundVectorRequest, AddedVector}
use researcher_agent_kube_en.Api.Vectors.{
  ledger_error_text, policy_of, is_immediate, added, after_save, add_ground_vector,
  add_ground_vector_saves,
}

-- The entry that a request asks for, and the answer to it.
abbrev pub requested_entry :
    {F : Type 0} → AddGroundVectorRequest F → Text → Timestamp → LedgerEntry F
requested_entry req id now = record {
  id = id;
  label = req.label;
  content = req.content;
  weight = req.weight;
  rotation_policy = if text_eq req.rotation_policy (lit "immediate") then immediate else next_epoch;
  neutralized = false;
  created_at = now;
  neutralized_at = none;
}

abbrev pub confirmation : {F : Type 0} → AddGroundVectorRequest F → Text → AddedVector
confirmation req id = record {
  id = id;
  status = lit "added";
  rotation =
      if text_eq req.rotation_policy (lit "immediate") then lit "immediate" else lit "next_epoch";
}

is_immediate-policy_of : (s : Text) → is_immediate (policy_of s) ≡ text_eq s (lit "immediate")
unfolding policy_of
is_immediate-policy_of s = ground arith

added-confirmation :
    {F : Type 0} (req : AddGroundVectorRequest F) (id : Text)
    → added id (policy_of req.rotation_policy) ≡ confirmation req id
unfolding added
added-confirmation req id = rw (is_immediate-policy_of req.rotation_policy) refl

module _ (fs : Files) {V F : Type 0} (js : Json (Ledger F)) where
  after_save-rest :
      (state : AppState V F) (id : Text) (policy : RotationPolicy)
      (saved : Result (Unit {0}) (LedgerError fs.IoError js.SerdeError))
      → ((after_save fs js state id policy saved).1.pending_state ≡ state.pending_state)
        × ((after_save fs js state id policy saved).1.fact_graph ≡ state.fact_graph)
  unfolding after_save
  after_save-rest state id policy (ok u) = (refl, refl)
  after_save-rest state id policy (err e) = (refl, refl)

  add_ground_vector-lookup :
      (state : AppState V F) (req : AddGroundVectorRequest F) (id : Text) (now : Timestamp)
      (w : fs.World) (j : Text)
      → lookup j (add_ground_vector fs js state req id now w).1.ledger.entries ≡ (
          if text_eq id j then some (requested_entry req id now) else lookup j state.ledger.entries)
  unfolding policy_of fresh_entry
  add_ground_vector-lookup state req id now w j =
      ap (λ (l : Ledger F). lookup j l.entries) (add_ground_vector_saves fs js state req id now w).0
      ∙ (add_entry-lookup state.ledger req.label req.content req.weight
            (policy_of req.rotation_policy) id now).1
          j

  -- On every outcome, also where the answer is an error, the ledger has the entry that the request
  -- describes under the identifier, active and with the time, and is otherwise as it was; its path, the
  -- pending state and the facts stay. This ledger is what is saved. If the save succeeds, the answer
  -- names the identifier and the policy, and a rotation is triggered if the request says `immediate`,
  -- or was pending already; if it fails, the answer is an internal error and none is triggered.
  pub add_ground_vector_outcome :
      (state : AppState V F) (req : AddGroundVectorRequest F) (id : Text) (now : Timestamp)
      (w : fs.World)
      → let (r, state', w') = add_ground_vector fs js state req id now w in
        ((j : Text)
          → lookup j state'.ledger.entries ≡ (
              if text_eq id j
              then some (requested_entry req id now)
              else lookup j state.ledger.entries))
        × (state'.ledger.path ≡ state.ledger.path)
        × (state'.pending_state ≡ state.pending_state)
        × (state'.fact_graph ≡ state.fact_graph)
        × (w' ≡ (save_ledger fs js state'.ledger w).1)
        × (((save_ledger fs js state'.ledger w).0 ≡ ok tt)
              × (r ≡ ok (confirmation req id))
              × (state'.rotation_trigger
                  ≡ (text_eq req.rotation_policy (lit "immediate") || state.rotation_trigger))
            ⊎ ((e : LedgerError fs.IoError js.SerdeError) × ((save_ledger fs js state'.ledger w).0
                  ≡ err e)
                × (r ≡ err (internal (ledger_error_text fs.io_text js.serde_text e)))
                × (state'.rotation_trigger ≡ state.rotation_trigger)))
  unfolding add_ground_vector add_entry
  add_ground_vector_outcome state req id now w =
      let policy = policy_of req.rotation_policy in
      let ledger = (add_entry state.ledger req.label req.content req.weight policy id now).0 in
      let saved = save_ledger fs js ledger w in
      let (held, written, answered) = add_ground_vector_saves fs js state req id now w in
      let (kept_pending, kept_graph) =
        after_save-rest (record state { ledger = ledger }) id policy saved.0 in
      (
        add_ground_vector-lookup state req id now w,
        ap (λ (l : Ledger F). l.path) held,
        kept_pending,
        kept_graph,
        written ∙ ap (λ l. (save_ledger fs js l w).1) (sym held),
        elim answered [
          | inl (good, named, triggered) ↦ inl (
            ap (λ l. (save_ledger fs js l w).0) held ∙ good,
            named ∙ ap ok (added-confirmation req id),
            triggered
                ∙ ap (λ b. b || state.rotation_trigger)
                    (is_immediate-policy_of req.rotation_policy),
          )
          | inr (e, failed, told, same) ↦
              inr (e, ap (λ l. (save_ledger fs js l w).0) held ∙ failed, told, same)
        ],
      )

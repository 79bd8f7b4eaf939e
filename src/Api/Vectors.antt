-- ===== src/Api/Vectors.antt =====
-- src/api.rs, the handlers that change the ledger.
pub mod Outcome
use researcher_agent_kube_en.Base.{
  ◌≡◌, refl, ap, sym, ◌∙◌, some, subst, Bool, true, false, ◌||◌, ◌++◌, none, Result, ok, err, Text,
  lit, text_eq, if◌then◌else◌, arith, Result-cases, inl, inr, ◌⊎◌,
}
use researcher_agent_kube_en.Base.Maps.{lookup}
use researcher_agent_kube_en.Platform.{Files, Json, Timestamp}
use researcher_agent_kube_en.Platform.Float.{Float}
use researcher_agent_kube_en.Ledger.{
  Ledger, LedgerEntry, LedgerError, fresh_entry, RotationPolicy, immediate, next_epoch, io, serde,
  not_found, add_entry, neutralize_entry, save_ledger,
}
use researcher_agent_kube_en.Ledger.Entries.{
  IsConsistent, add_entry-IsConsistent, add_entry-lookup, neutralize_entry-IsConsistent,
  neutralize_entry_outcome,
}
use researcher_agent_kube_en.Api.{
  AppState, ApiError, rejected, internal, AddGroundVectorRequest, AddedVector, NeutralizedVector,
}

-- `Display` of `LedgerError`
unfoldable pub ledger_error_text :
    {Io Serde : Type 0} → (Io → Text) → (Serde → Text) → LedgerError Io Serde → Text
ledger_error_text io_text serde_text (io e) = lit "IO error: " ++ io_text e
ledger_error_text io_text serde_text (serde e) = lit "Serialization error: " ++ serde_text e
ledger_error_text io_text serde_text (not_found id) = lit "Entry not found: " ++ id

-- What serde puts in for a field that the request leaves out.
unfoldable pub default_weight : (fl : Float) → fl.F64
default_weight fl = fl.one

unfoldable pub default_policy : Text
default_policy = lit "next_epoch"

unfoldable pub policy_of : Text → RotationPolicy
policy_of s = if text_eq s (lit "immediate") then immediate else next_epoch

abbrev pub is_immediate : RotationPolicy → Bool
is_immediate immediate = true
is_immediate next_epoch = false

unfoldable pub added : Text → RotationPolicy → AddedVector
added id policy = record {
  id = id;
  status = lit "added";
  rotation = if is_immediate policy then lit "immediate" else lit "next_epoch";
}

module _ (fs : Files) {V F : Type 0} (js : Json (Ledger F)) where
  -- The handler from the save on: an error ends it with the entry in the ledger.
  unfoldable pub after_save :
      AppState V F
      → Text
      → RotationPolicy
      → Result (Unit {0}) (LedgerError fs.IoError js.SerdeError)
      → Result AddedVector ApiError × AppState V F
  unfolding added
  after_save state id policy (err e) =
      (err (internal (ledger_error_text fs.io_text js.serde_text e)), state)
  after_save state id policy (ok u) = (
    ok (added id policy),
    record state { rotation_trigger = is_immediate policy || state.rotation_trigger },
  )

  unfoldable pub add_ground_vector :
      AppState V F
      → AddGroundVectorRequest F
      → (id : Text) (now : Timestamp) → fs.World
      → Result AddedVector ApiError × AppState V F × fs.World
  unfolding policy_of after_save
  add_ground_vector state req id now w =
      let policy = policy_of req.rotation_policy in
      let (ledger, id') = add_entry state.ledger req.label req.content req.weight policy id now in
      let (saved, w') = save_ledger fs js ledger w in
      let (r, state') = after_save (record state { ledger = ledger }) id' policy saved in
      (r, state', w')

  unfoldable pub neutralize_found :
      AppState V F
      → Text
      → Result (Unit {0}) (LedgerError fs.IoError js.SerdeError)
      → fs.World
      → Result NeutralizedVector ApiError × AppState V F × fs.World
  neutralize_found state id (err e) w =
      (err (rejected (ledger_error_text fs.io_text js.serde_text e)), state, w)
  neutralize_found state id (ok u) w =
      let (saved, w') = save_ledger fs js state.ledger w in
      let answer : NeutralizedVector = record { id = id; status = lit "neutralized" } in
      elim saved [
        | ok v ↦ (ok answer, state, w')
        | err e ↦ (err (internal (ledger_error_text fs.io_text js.serde_text e)), state, w')
      ]

  unfoldable pub neutralize_ground_vector :
      AppState V F
      → (id : Text) (now : Timestamp) → fs.World
      → Result NeutralizedVector ApiError × AppState V F × fs.World
  unfolding neutralize_found
  neutralize_ground_vector state id now w =
      let (r, ledger) = neutralize_entry state.ledger id now in
      neutralize_found (record state { ledger = ledger }) id r w

  after_save-ledger :
      (state : AppState V F) (id : Text) (policy : RotationPolicy)
      (saved : Result (Unit {0}) (LedgerError fs.IoError js.SerdeError))
      → (after_save state id policy saved).1.ledger ≡ state.ledger
  unfolding after_save
  after_save-ledger state id policy (ok u) = refl
  after_save-ledger state id policy (err e) = refl

  -- The ledger with the entry is kept and saved, whatever comes of it.
  pub add_ground_vector_saves :
      (state : AppState V F) (req : AddGroundVectorRequest F) (id : Text) (now : Timestamp)
      (w : fs.World)
      → let (r, state', w') = add_ground_vector state req id now w in
        let policy = policy_of req.rotation_policy in
        let (ledger, _) = add_entry state.ledger req.label req.content req.weight policy id now in
        (state'.ledger ≡ ledger)
        × (w' ≡ (save_ledger fs js ledger w).1)
        × (((save_ledger fs js ledger w).0 ≡ ok tt)
              × (r ≡ ok (added id policy))
              × (state'.rotation_trigger ≡ (is_immediate policy || state.rotation_trigger))
            ⊎ ((e : LedgerError fs.IoError js.SerdeError) × ((save_ledger fs js ledger w).0 ≡ err e)
                × (r ≡ err (internal (ledger_error_text fs.io_text js.serde_text e)))
                × (state'.rotation_trigger ≡ state.rotation_trigger)))
  unfolding add_ground_vector add_entry
  add_ground_vector_saves state req id now w =
      let policy = policy_of req.rotation_policy in
      let ledger = (add_entry state.ledger req.label req.content req.weight policy id now).0 in
      (
        after_save-ledger (record state { ledger = ledger }) id policy _,
        refl,
        elim (Result-cases (save_ledger fs js ledger w).0) [
          | inl (u, e) ↦ inl (e, rw e, rw e)
          | inr (x, e) ↦ inr (x, e, rw e, rw e)
        ],
      )

  neutralize_found-ledger :
      (state : AppState V F) (id : Text)
      (r : Result (Unit {0}) (LedgerError fs.IoError js.SerdeError)) (w : fs.World)
      → (neutralize_found state id r w).1.ledger ≡ state.ledger
  unfolding neutralize_found
  neutralize_found-ledger state id (err e) w = refl
  neutralize_found-ledger state id (ok u) w = ground arith

  -- Adding a vector keeps the ledger consistent, whether or not it can be saved.
  pub add_ground_vector-IsConsistent :
      (state : AppState V F) (req : AddGroundVectorRequest F) (id : Text) (now : Timestamp)
      (w : fs.World)
      → IsConsistent state.ledger
      → IsConsistent (add_ground_vector state req id now w).1.ledger
  add_ground_vector-IsConsistent state req id now w v =
      subst IsConsistent (sym (add_ground_vector_saves state req id now w).0) (
        add_entry-IsConsistent state.ledger req.label req.content req.weight
          (policy_of req.rotation_policy) id now v)

  -- Neutralizing a vector keeps the ledger consistent, on every outcome.
  pub neutralize_ground_vector-IsConsistent :
      (state : AppState V F) (id : Text) (now : Timestamp) (w : fs.World)
      → IsConsistent state.ledger
      → IsConsistent (neutralize_ground_vector state id now w).1.ledger
  unfolding neutralize_ground_vector
  neutralize_ground_vector-IsConsistent state id now w v =
      subst IsConsistent
        (sym (
          neutralize_found-ledger
            (record state {
              ledger =
                  (neutralize_entry {Io = fs.IoError} {Serde = js.SerdeError} state.ledger id
                    now).1;
            })
            id (neutralize_entry state.ledger id now).0 w))
        (neutralize_entry-IsConsistent fs.IoError js.SerdeError state.ledger id now v)

  -- An identifier that the ledger does not know is rejected, and neither the state nor the files
  -- change.
  pub neutralize_ground_vector-unknown :
      (state : AppState V F) (id : Text) (now : Timestamp) (w : fs.World)
      → lookup id state.ledger.entries ≡ none
      → neutralize_ground_vector state id now w
        ≡ (err (rejected (lit "Entry not found: " ++ id)), state, w)
  unfolding neutralize_ground_vector ledger_error_text
  neutralize_ground_vector-unknown state id now w e =
      ground (arith, neutralize_entry_outcome fs.IoError js.SerdeError state.ledger id now)

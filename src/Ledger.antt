-- ===== src/Ledger.antt =====
-- src/ledger.rs: the user's steering directives. `F` is the type of a weight, an `f64`. As in the graph
-- of facts, the identifier and the time are arguments.
pub mod Entries
pub mod Active
pub mod Persistence
pub mod Refinement
use researcher_agent_kube_en.Base.{
  Bool, true, false, not, ◌||◌, List, [], map, Option, none, some, Result, ok, err, map_err, ◌>>=◌,
  Text, Map, retain, if◌then◌else◌, is_some,
}
use researcher_agent_kube_en.Base.Maps.{contains_key, insert, modify, values}
use researcher_agent_kube_en.Platform.{Digest, Json, Timestamp}
use researcher_agent_kube_en.Platform
use researcher_agent_kube_en.Platform.Float.{Float}
use researcher_agent_kube_en.Alignment.{GroundVector}
use researcher_agent_kube_en.Alignment.Embedding.{chunks, chunk_word, u32_mod}
use researcher_agent_kube_en.FactGraph.{is_empty, ok_or_false}
use researcher_agent_kube_en.Base.{◌-◌}

pub data RotationPolicy : Type 0 where
  immediate next_epoch : RotationPolicy

pub record LedgerEntry (F : Type 0) : Type 0 where
  pub id : Text
  pub label : Text
  pub content : Text
  pub weight : F
  pub rotation_policy : RotationPolicy
  pub neutralized : Bool
  pub created_at : Timestamp
  pub neutralized_at : Option Timestamp

pub record Ledger (F : Type 0) : Type 0 where
  pub entries : Map (LedgerEntry F)
  pub path : Text

pub data LedgerError (Io Serde : Type 0) : Type 0 where
  io : Io → LedgerError Io Serde
  serde : Serde → LedgerError Io Serde
  not_found : Text → LedgerError Io Serde

-- `LedgerEntry::to_ground_vector`
unfoldable pub to_ground_vector : (fl : Float) → Digest → LedgerEntry fl.F64 → GroundVector fl.F64
unfolding chunks chunk_word
to_ground_vector fl d e = record {
  objective_id = e.id;
  embedding =
      map (λ c. fl.div (fl.of_u32 (chunk_word c)) (fl.of_u32 (u32_mod - 1)))
        (chunks (d.sha256 e.content));
  label = e.label;
  weight = e.weight;
}

-- `Ledger::new`
unfoldable pub new : {F : Type 0} → Text → Ledger F
new path = record { entries = []; path = path }

unfoldable pub ephemeral : {F : Type 0} → Ledger F
unfolding new
ephemeral = new []

-- The entry that `add_entry` makes.
unfoldable pub fresh_entry :
    {F : Type 0} → Text → Text → F → RotationPolicy → Text → Timestamp → LedgerEntry F
fresh_entry label content weight policy id now = record {
  id = id;
  label = label;
  content = content;
  weight = weight;
  rotation_policy = policy;
  neutralized = false;
  created_at = now;
  neutralized_at = none;
}

-- The ledger with the entry, and the identifier.
unfoldable pub add_entry :
    {F : Type 0} → Ledger F → Text → Text → F → RotationPolicy → Text → Timestamp → Ledger F × Text
unfolding fresh_entry
add_entry ledger label content weight policy id now =
    let entry = fresh_entry label content weight policy id now in
    (record ledger { entries = insert id entry ledger.entries }, id)

-- What `neutralize_entry` writes into an entry.
unfoldable pub neutralize : {F : Type 0} → Timestamp → LedgerEntry F → LedgerEntry F
neutralize now e = record e { neutralized = true; neutralized_at = some now }

-- `ok` with the ledger afterwards; an error leaves it as it was.
unfoldable pub neutralize_entry :
    {F Io Serde : Type 0}
    → Ledger F
    → Text
    → Timestamp
    → Result (Unit {0}) (LedgerError Io Serde) × Ledger F
unfolding neutralize
neutralize_entry ledger id now =
    if contains_key id ledger.entries
    then (ok tt, record ledger { entries = modify id (neutralize now) ledger.entries })
    else (err (not_found id), ledger)

unfoldable pub active_ground_vectors :
    (fl : Float) → Digest → Ledger fl.F64 → List (GroundVector fl.F64)
unfolding to_ground_vector
active_ground_vectors fl d ledger =
    map (to_ground_vector fl d) (retain (λ e. not e.neutralized) (values ledger.entries))

module _ {F : Type 0} (fs : Platform.Files) (js : Json (Ledger F)) where
  open fs use {World, IoError, try_exists, read_to_string, write}
  open js use {SerdeError, to_string, from_str}

  abbrev pub Error : Type 0
  Error = LedgerError IoError SerdeError

  unfoldable pub load_ledger : Text → World → Result (Ledger F) Error
  unfolding new
  load_ledger path w =
      if is_empty path || not (ok_or_false (try_exists path w)) then ok (new path) else do
        raw ← map_err {F = Error} io (read_to_string path w)
        ledger ← map_err {F = Error} serde (from_str raw)
        ok (record ledger { path = path })

  -- `serde_json::to_string_pretty(ledger)?`, then the write.
  unfoldable pub write_json :
      Text → Result Text SerdeError → World → Result (Unit {0}) Error × World
  write_json path (err e) w = (err (serde e), w)
  write_json path (ok json) w = let (r, w') = write path json w in (map_err {F = Error} io r, w')

  unfoldable pub save_ledger : Ledger F → World → Result (Unit {0}) Error × World
  unfolding write_json
  save_ledger ledger w =
      if is_empty ledger.path then (ok tt, w) else write_json ledger.path (to_string ledger) w

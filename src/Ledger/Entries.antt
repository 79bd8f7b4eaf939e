-- ===== src/Ledger/Entries.antt =====
-- src/ledger.rs, `add_entry` and `neutralize_entry`: what they do to the entries.
use researcher_agent_kube_en.Base.{
  ◌≡◌, refl, ◌+◌, some, ok, err, Text, text_eq, text_eq_iff, arith, if◌then◌else◌, Bool-cases,
  length, inl, inr, is_some,
}
use mathlib.Core.Option
use researcher_agent_kube_en.Base.Maps.{lookup, contains_key, All, Distinct}
use researcher_agent_kube_en.Base.Maps.Laws.{
  lookup-insert, lookup-modify, All-insert, All-modify, Distinct-insert, Distinct-modify,
  length-insert, length-modify,
}
use researcher_agent_kube_en.Platform.{Timestamp}
use researcher_agent_kube_en.Ledger.{
  Ledger, RotationPolicy, not_found, new, fresh_entry, add_entry, neutralize, neutralize_entry,
}

pub record IsConsistent {F : Type 0} (l : Ledger F) : Type 0 where
  pub keyed : All (λ k e. e.id ≡ k) l.entries
  pub flagged : All (λ k e. e.neutralized ≡ is_some e.neutralized_at) l.entries
  pub distinct : Distinct l.entries

pub new-IsConsistent : {F : Type 0} (path : Text) → IsConsistent (new {F = F} path)
unfolding new
new-IsConsistent path = record { keyed = tt; flagged = tt; distinct = tt }

module _ {F : Type 0} (l : Ledger F) (label content : Text) (weight : F) (policy : RotationPolicy)
    (id : Text) (now : Timestamp) where
  -- Adding an entry keeps the ledger consistent, also under an identifier that is taken.
  pub add_entry-IsConsistent :
      IsConsistent l → IsConsistent (add_entry l label content weight policy id now).0
  unfolding add_entry
  add_entry-IsConsistent v = record {
    keyed = All-insert _ id _ l.entries refl v.keyed;
    flagged =
        All-insert _ id (fresh_entry label content weight policy id now) l.entries refl v.flagged;
    distinct = Distinct-insert id _ l.entries v.distinct;
  }

  -- The answer is the identifier; under it the new entry is found, not neutralized, and under every
  -- other one what was there. There is one more entry, unless the identifier was taken.
  pub add_entry-lookup :
      let (l', id') = add_entry l label content weight policy id now in
      (id' ≡ id)
      × ((j : Text)
          → lookup j l'.entries ≡ (
              if text_eq id j
              then some (fresh_entry label content weight policy id now)
              else lookup j l.entries))
      × (length l'.entries ≡ length l.entries + (if is_some (lookup id l.entries) then 0 else 1))
  unfolding add_entry
  add_entry-lookup = (refl, λ j. lookup-insert id j _ l.entries, length-insert id _ l.entries)

module _ (Io Serde : Type 0) {F : Type 0} (l : Ledger F) (id : Text) (now : Timestamp) where
  -- Neutralizing keeps the ledger consistent, on both outcomes.
  pub neutralize_entry-IsConsistent :
      IsConsistent l → IsConsistent (neutralize_entry {Io = Io} {Serde = Serde} l id now).1
  unfolding neutralize_entry
  neutralize_entry-IsConsistent v = elim (Bool-cases (contains_key id l.entries)) [
    | inr missing ↦ rw missing v
    | inl found ↦ rw found (record {
      keyed = All-modify _ id (neutralize now) l.entries (λ e h. h) v.keyed;
      flagged = All-modify _ id (neutralize now) l.entries (λ e h. refl) v.flagged;
      distinct = Distinct-modify id _ l.entries v.distinct;
    })
  ]

  -- An identifier that the ledger does not know is an error that names it, and changes nothing; a
  -- known one succeeds. No entry is removed, none is added.
  pub neutralize_entry_outcome :
      let (r, l') = neutralize_entry {Io = Io} {Serde = Serde} l id now in
      (if is_some (lookup id l.entries) then r ≡ ok tt else (r ≡ err (not_found id)) × (l' ≡ l))
      × (length l'.entries ≡ length l.entries)
  unfolding neutralize_entry contains_key
  neutralize_entry_outcome = elim (Bool-cases (contains_key id l.entries)) [
    | inr missing ↦ ground arith
    | inl found ↦ ground (arith, length-modify id (neutralize now) l.entries)
  ]

  -- Afterwards the entry is found marked, with the time and otherwise as it was; so is every other
  -- entry as it was.
  pub neutralize_entry-lookup :
      (j : Text)
      → lookup j (neutralize_entry {Io = Io} {Serde = Serde} l id now).1.entries ≡ (
          if text_eq id j
          then Option.map (neutralize now) (lookup j l.entries)
          else lookup j l.entries)
  unfolding neutralize_entry contains_key
  neutralize_entry-lookup j =
      ground (arith, text_eq_iff id j, lookup-modify id j (neutralize now) l.entries)

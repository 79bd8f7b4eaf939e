-- ===== src/Ledger/Refinement.antt =====
-- src/ledger.rs: the ledger as an abstract one, a function from identifiers to entries, over any
-- sequence of additions and neutralizations.
use mathlib.Core.Path.{fun_ext}
use mathlib.Core.Option
use researcher_agent_kube_en.Base.{
  ◌≡◌, refl, ap, ◌∙◌, List, [], ◌∷◌, Option, some, Text, text_eq, if◌then◌else◌,
}
use researcher_agent_kube_en.Base.Maps.{lookup}
use researcher_agent_kube_en.Platform.{Timestamp}
use researcher_agent_kube_en.Ledger.{
  Ledger, LedgerEntry, RotationPolicy, fresh_entry, add_entry, neutralize, neutralize_entry,
}
use researcher_agent_kube_en.Ledger.Entries.{
  IsConsistent, add_entry-IsConsistent, neutralize_entry-IsConsistent, add_entry-lookup,
  neutralize_entry-lookup,
}

pub data Change (F : Type 0) : Type 0 where
  add :
      (label content : Text) (weight : F) (policy : RotationPolicy) (id : Text) (now : Timestamp)
      → Change F
  mark : (id : Text) (now : Timestamp) → Change F

-- The entries, by identifier.
abbrev pub Entries : Type 0 → Type 0
Entries F = Text → Option (LedgerEntry F)

abbrev pub view : {F : Type 0} → Ledger F → Entries F
view l id = lookup id l.entries

-- An entry is put under its identifier, or marked there; nothing is ever taken away.
unfoldable pub perform : {F : Type 0} → Change F → Entries F → Entries F
unfolding fresh_entry neutralize
perform (add label content weight policy id now) entries j =
    if text_eq id j then some (fresh_entry label content weight policy id now) else entries j
perform (mark id now) entries j =
    if text_eq id j then Option.map (neutralize now) (entries j) else entries j

abbrev pub perform_all : {F : Type 0} → List (Change F) → Entries F → Entries F
perform_all [] s = s
perform_all (c ∷ cs) s = perform_all cs (perform c s)

module _ (Io Serde : Type 0) {F : Type 0} where
  -- The change in the code; what a neutralization answers is left out.
  unfoldable pub run_change : Change F → Ledger F → Ledger F
  unfolding add_entry neutralize_entry
  run_change (add label content weight policy id now) l =
      (add_entry l label content weight policy id now).0
  run_change (mark id now) l = (neutralize_entry {Io = Io} {Serde = Serde} l id now).1

  unfoldable pub run_changes : List (Change F) → Ledger F → Ledger F
  run_changes [] l = l
  run_changes (c ∷ cs) l = run_changes cs (run_change c l)

  view-run_change : (c : Change F) (l : Ledger F) → view (run_change c l) ≡ perform c (view l)
  unfolding run_change perform
  view-run_change (add label content weight policy id now) l =
      fun_ext (add_entry-lookup l label content weight policy id now).1
  view-run_change (mark id now) l = fun_ext (neutralize_entry-lookup Io Serde l id now)

  run_change-IsConsistent :
      (c : Change F) (l : Ledger F) → IsConsistent l → IsConsistent (run_change c l)
  unfolding run_change
  run_change-IsConsistent (add label content weight policy id now) l v =
      add_entry-IsConsistent l label content weight policy id now v
  run_change-IsConsistent (mark id now) l v = neutralize_entry-IsConsistent Io Serde l id now v

  -- Over any sequence of additions and neutralizations the ledger is the abstract one, and it stays
  -- consistent.
  pub view-run_changes :
      (changes : List (Change F)) (l : Ledger F)
      → IsConsistent l
      → (view (run_changes changes l) ≡ perform_all changes (view l))
        × IsConsistent (run_changes changes l)
  unfolding run_changes
  view-run_changes [] l v = (refl, v)
  view-run_changes (c ∷ cs) l v =
      let (viewed, kept) = view-run_changes cs (run_change c l) (run_change-IsConsistent c l v) in
      (viewed ∙ ap (perform_all cs) (view-run_change c l), kept)

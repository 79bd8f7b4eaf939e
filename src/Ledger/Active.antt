-- ===== src/Ledger/Active.antt =====
-- src/ledger.rs, `active_ground_vectors`: the vectors that count for alignment.
use mathlib.Core.List.{map-append, perm_append_comm, Perm}
use researcher_agent_kube_en.Base.{
  ◌≡◌, refl, ap, ◌∙◌, sym, Bool, not, List, [], ◌∷◌, ◌++◌, map, none, Text, text_eq, text_eq_iff,
  arith, Bool-cases, inl, inr, retain, retain-append, Map,
}
use researcher_agent_kube_en.Base.Maps.{lookup, contains_key, insert, modify, values, All, Distinct}
use researcher_agent_kube_en.Base.Maps.Laws.{contains_key-lookup}
use researcher_agent_kube_en.Platform.{Digest, Timestamp}
use researcher_agent_kube_en.Platform.Float.{Float}
use researcher_agent_kube_en.Ledger.{
  Ledger, LedgerEntry, RotationPolicy, fresh_entry, add_entry, neutralize, neutralize_entry,
  to_ground_vector, active_ground_vectors,
}
use researcher_agent_kube_en.Ledger.Entries.{IsConsistent}

module _ {F : Type 0} where
  abbrev is_active : LedgerEntry F → Bool
  is_active e = not e.neutralized

  -- A key that is missing drops nothing.
  retain_missing :
      (k : Text) (m : Map (LedgerEntry F))
      → All (λ k e. e.id ≡ k) m
      → lookup k m ≡ none
      → retain (λ e. not (text_eq e.id k)) (retain is_active (values m))
        ≡ retain is_active (values m)
  unfolding retain lookup
  retain_missing k [] h e = refl
  retain_missing k ((j, v) ∷ m) h e = ground (arith, retain_missing k m h.1)

  -- Marking the entry of a key takes it, and nothing else, from the active entries.
  retain-modify :
      (k : Text) (now : Timestamp) (m : Map (LedgerEntry F))
      → All (λ k e. e.id ≡ k) m
      → Distinct m
      → retain is_active (values (modify k (neutralize now) m))
        ≡ retain (λ e. not (text_eq e.id k)) (retain is_active (values m))
  unfolding retain modify neutralize
  retain-modify k now [] h d = refl
  retain-modify k now ((j, v) ∷ m) h d =
      ground (arith, text_eq_iff j k, retain_missing k m h.1, retain-modify k now m h.1 d.1)

  values-insert_new :
      (k : Text) (v : LedgerEntry F) (m : Map (LedgerEntry F))
      → lookup k m ≡ none
      → values (insert k v m) ≡ values m ++ v ∷ []
  unfolding insert lookup
  values-insert_new k v [] e = refl
  values-insert_new k v ((j, w) ∷ m) e = ground (arith, values-insert_new k v m)

module _ (fl : Float) (d : Digest) where
  map-retain :
      (k : Text) (es : List (LedgerEntry fl.F64))
      → map (to_ground_vector fl d) (retain (λ e. not (text_eq e.id k)) es)
        ≡ retain (λ gv. not (text_eq gv.objective_id k)) (map (to_ground_vector fl d) es)
  unfolding retain to_ground_vector
  map-retain k [] = refl
  map-retain k (e ∷ es) = ground (arith, map-retain k es)

  -- In a consistent ledger, neutralizing takes exactly the vector with the identifier out of the active ones, and leaves the
  -- others in their order; with an identifier that the ledger does not know it takes out none.
  pub active_ground_vectors-neutralize_entry :
      (Io Serde : Type 0) (l : Ledger fl.F64) (id : Text) (now : Timestamp)
      → IsConsistent l
      → active_ground_vectors fl d (neutralize_entry {Io = Io} {Serde = Serde} l id now).1
        ≡ retain (λ gv. not (text_eq gv.objective_id id)) (active_ground_vectors fl d l)
  unfolding active_ground_vectors neutralize_entry
  active_ground_vectors-neutralize_entry Io Serde l id now v =
      elim (Bool-cases (contains_key id l.entries)) [
        | inl found ↦ rw found (
            ap (map (to_ground_vector fl d)) (retain-modify id now l.entries v.keyed v.distinct)
            ∙ map-retain id _)
        | inr missing ↦ rw missing (
            ap (map (to_ground_vector fl d))
              (sym (retain_missing id l.entries v.keyed (contains_key-lookup id _ missing)))
            ∙ map-retain id _)
      ]

  -- An entry that is added under a new identifier counts at once: its vector joins the active ones.
  pub active_ground_vectors-add_entry :
      (l : Ledger fl.F64) (label content : Text) (weight : fl.F64) (policy : RotationPolicy)
      (id : Text) (now : Timestamp)
      → lookup id l.entries ≡ none
      → Perm (active_ground_vectors fl d (add_entry l label content weight policy id now).0) (
          to_ground_vector fl d (fresh_entry label content weight policy id now)
          ∷ active_ground_vectors fl d l)
  unfolding active_ground_vectors add_entry retain
  active_ground_vectors-add_entry l label content weight policy id now e =
      rw
        (
          values-insert_new id (fresh_entry label content weight policy id now) l.entries e,
          retain-append,
          map-append,
        )
        (perm_append_comm (map (to_ground_vector fl d) (retain is_active (values l.entries)))
          (to_ground_vector fl d (fresh_entry label content weight policy id now) ∷ []))

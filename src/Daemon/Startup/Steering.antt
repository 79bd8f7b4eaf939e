-- ===== src/Daemon/Startup/Steering.antt =====
-- src/main.rs, the ground vectors of the command line: how one is read, and the ledger that the
-- daemon starts with.
use mathlib.Core.List.{Perm as Permuted, perm_middle}
use mathlib.Core.List.Perm
use researcher_agent_kube_en.Base.{
  ◌≡◌, refl, ◌∙◌, ◌≢◌, ◌++◌, List, [], ◌∷◌, none, some, ok, Text, map, arith,
}
use researcher_agent_kube_en.Base.Steps.{◌>>=◌, pure}
use researcher_agent_kube_en.Base.Strings.Laws.{Lacks}
use researcher_agent_kube_en.Base.Strings.Split.{splitn-four}
use researcher_agent_kube_en.Base.Maps.{lookup}
use researcher_agent_kube_en.Platform.{Digest, Files, Json, IsReadBack}
use researcher_agent_kube_en.Platform.Float.{Float}
use researcher_agent_kube_en.Alignment.{GroundVector}
use researcher_agent_kube_en.FactGraph.{FactGraph}
use researcher_agent_kube_en.Ledger.{
  Ledger, fresh_entry, add_entry, to_ground_vector, active_ground_vectors, load_ledger, save_ledger,
}
use researcher_agent_kube_en.Ledger.Active.{active_ground_vectors-add_entry}
use researcher_agent_kube_en.Ledger.Persistence.{load_ledger-path, load_ledger-save_at}
use researcher_agent_kube_en.Daemon.Startup.{
  Raw, parsed_policy, parse_ground_vector, add_raw, add_ground_vectors, start_ledger, save_if_added,
}

module _ (fl : Float) where
  -- A ground vector as a user types it.
  abbrev pub typed : (label content : Text) → fl.F64 → Text → Text
  typed label content weight policy =
      label ++ b':' ∷ (content ++ b':' ∷ (fl.print weight ++ b':' ∷ policy))

  -- A ground vector of four parts is read as it was typed, if the label, the content and the print of
  -- the weight hold no colon and the print parses back. The policy is whatever follows.
  pub parse_ground_vector-typed :
      (label content policy : Text) (weight : fl.F64)
      → Lacks b':' label
      → Lacks b':' content
      → Lacks b':' (fl.print weight)
      → fl.parse (fl.print weight) ≡ some weight
      → parse_ground_vector fl (typed label content weight policy) ≡ record {
        label = label;
        content = content;
        weight = weight;
        policy = parsed_policy (some policy);
      }
  unfolding parse_ground_vector
  parse_ground_vector-typed label content policy weight hl hc hw parsed =
      ground (arith, splitn-four b':' label content (fl.print weight) policy hl hc hw)

  -- The identifiers that the loop draws are new to the ledger.
  abbrev pub AreFresh : Ledger fl.F64 → List Raw → Type 0
  AreFresh l [] = Unit
  AreFresh l (raw ∷ raws) = (lookup raw.id l.entries ≡ none) × AreFresh (add_raw fl l raw) raws

  -- The vector that a text of the command line stands for.
  abbrev pub steering_vector : Digest → Raw → GroundVector fl.F64
  steering_vector d raw =
      let v = parse_ground_vector fl raw.text in
      to_ground_vector fl d (fresh_entry v.label v.content v.weight v.policy raw.id raw.now)

  -- After the loop the active vectors are, in some order, those that were and one for each text
  -- of the command line, if each identifier that the loop draws is new to the ledger that it has
  -- come to.
  pub add_ground_vectors-active :
      (d : Digest) (raws : List Raw) (l : Ledger fl.F64)
      → AreFresh l raws
      → Permuted
          (active_ground_vectors fl d (add_ground_vectors fl l raws))
          (map (steering_vector d) raws ++ active_ground_vectors fl d l)
  unfolding add_ground_vectors add_raw
  add_ground_vectors-active d [] l h = Perm.refl _
  add_ground_vectors-active d (raw ∷ raws) l h =
      let v = parse_ground_vector fl raw.text in
      let joins =
        active_ground_vectors-add_entry fl d l v.label v.content v.weight v.policy raw.id raw.now
          h.0 in
      Perm.trans (add_ground_vectors-active d raws (add_raw fl l raw) h.1) (
        Perm.trans (Perm.append_left (map (steering_vector d) raws) joins)
          (perm_middle (map (steering_vector d) raws) (active_ground_vectors fl d l)))

  add_ground_vectors-path :
      (raws : List Raw) (l : Ledger fl.F64) → (add_ground_vectors fl l raws).path ≡ l.path
  unfolding add_ground_vectors add_raw add_entry
  add_ground_vectors-path [] l = refl
  add_ground_vectors-path (raw ∷ raws) l = add_ground_vectors-path raws (add_raw fl l raw)

  module _ (fs : Files) (graph : Json FactGraph) (steering : Json (Ledger fl.F64)) where
    -- A start with ground vectors on the command line: the daemon holds the loaded ledger with
    -- the ground vectors added, and the file holds the same, so that the next start finds them.
    -- It holds if the ledger can be loaded, its path is not empty, the new ledger is printed as
    -- JSON that reads back as that ledger without its path (which the JSON of a weight that is no
    -- finite number does not), the save succeeds, and the file system returns what was written.
    pub start_ledger-saves :
        (path json : Text) (raw : Raw) (raws : List Raw) (l : Ledger fl.F64) (w : fs.World)
        → load_ledger fs steering path w ≡ ok l
        → path ≢ []
        → IsReadBack fs
        → let l' = add_ground_vectors fl l (raw ∷ raws) in
          steering.to_string l' ≡ ok json
          → steering.from_str json ≡ ok (record l' { path = [] })
          → (save_ledger fs steering l' w).0 ≡ ok tt
          → let (r, w') = start_ledger fl fs graph steering path (raw ∷ raws) w in
            (r ≡ ok l') × (load_ledger fs steering path w' ≡ ok l')
    unfolding start_ledger save_if_added ◌>>=◌ pure
    start_ledger-saves path json raw raws l w loaded named back printed read saved =
        let l' = add_ground_vectors fl l (raw ∷ raws) in
        let same =
          add_ground_vectors-path (raw ∷ raws) l ∙ load_ledger-path fs steering path w l loaded in
        let found =
          load_ledger-save_at fs steering path l' w json same back named printed read saved in
        (ground arith, ground (arith, found))

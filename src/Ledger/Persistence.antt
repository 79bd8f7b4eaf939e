-- ===== src/Ledger/Persistence.antt =====
-- src/ledger.rs, the file of the ledger: what a save leaves for the next load.
use researcher_agent_kube_en.Base.{◌≡◌, false, [], ok, Text, arith, ◌≢◌, ◌⊎◌, subst, sym, ◌∙◌}
use researcher_agent_kube_en.Platform.{Json, IsReadBack}
use researcher_agent_kube_en.Platform
use researcher_agent_kube_en.Ledger.{Ledger, new, load_ledger, save_ledger}

module _ {F : Type 0} (fs : Platform.Files) (js : Json (Ledger F)) where
  -- A ledger that was saved under a path is loaded back as it was, neutralized entries included, provided that the
  -- file system returns what was written and that the JSON of the ledger reads back as the ledger
  -- without its path.
  pub load_ledger-save :
      (l : Ledger F) (w : fs.World) (json : Text)
      → IsReadBack fs
      → l.path ≢ []
      → js.to_string l ≡ ok json
      → js.from_str json ≡ ok (record l { path = [] })
      → (save_ledger fs js l w).0 ≡ ok tt
      → load_ledger fs js l.path (save_ledger fs js l w).1 ≡ ok l
  unfolding load_ledger save_ledger
  load_ledger-save l w json back named printed read saved =
      ground (arith, back.written_exists l.path json w, back.written_read l.path json w)

  -- Where there is no file, or no path, the load starts with an empty ledger bound to the path.
  pub load_ledger-missing :
      (path : Text) (w : fs.World)
      → (path ≡ []) ⊎ (fs.try_exists path w ≡ ok false)
      → load_ledger fs js path w ≡ ok (new path)
  unfolding load_ledger
  load_ledger-missing path w h = ground arith

  -- A ledger that was loaded is bound to the path.
  pub load_ledger-path :
      (path : Text) (w : fs.World) (l : Ledger F) → load_ledger fs js path w ≡ ok l → l.path ≡ path
  unfolding load_ledger
  load_ledger-path path w l e = ground arith

  -- The round trip, by the path to which a ledger is bound.
  pub load_ledger-save_at :
      (path : Text) (l : Ledger F) (w : fs.World) (json : Text)
      → l.path ≡ path
      → IsReadBack fs
      → path ≢ []
      → js.to_string l ≡ ok json
      → js.from_str json ≡ ok (record l { path = [] })
      → (save_ledger fs js l w).0 ≡ ok tt
      → load_ledger fs js path (save_ledger fs js l w).1 ≡ ok l
  load_ledger-save_at path l w json same back named printed read saved =
      subst (λ p. load_ledger fs js p (save_ledger fs js l w).1 ≡ ok l) same
        (load_ledger-save l w json back (λ e. named (sym same ∙ e)) printed read saved)

-- ===== src/Commands/Console.antt =====
-- src/main.rs, what the branches of `execute_subcommand` share: steps that may fail, what has been
-- printed, the request to the daemon, and the tables.
use researcher_agent_kube_en.Base.{
  ◌≡◌, refl, arith, ℕ, zero, suc, ◌-◌, List, [], ◌∷◌, ◌++◌, map, Option, none, some, Result, ok,
  err, Text, lit, length, if◌then◌else◌,
}
use researcher_agent_kube_en.Base.Strings.{join}
use researcher_agent_kube_en.Base.Decimal.{decimal}
use researcher_agent_kube_en.Base.Steps.{Step, ◌>>=◌, pure}
use researcher_agent_kube_en.Platform.{Json}
use researcher_agent_kube_en.Config.{Cli}
use researcher_agent_kube_en.Commands.{Surroundings, CliError}

-- `"c".repeat(n)`
unfoldable pub repeat : ℕ → ℕ → Text
repeat zero c = []
repeat (suc n) c = c ∷ repeat n c

-- `{:<n}`
unfoldable pub pad : ℕ → Text → Text
unfolding repeat
pad n s = s ++ repeat (n - length s) b' '

-- `{} | {} | …`
unfoldable pub row : List Text → Text
row = join (lit " | ")

-- `format!("http://127.0.0.1:{}", cli.port)`
unfoldable pub base_url : {F : Type 0} → Cli F → Text
base_url cli = lit "http://127.0.0.1:" ++ decimal cli.port

module _ {F : Type 0} (env : Surroundings F) where
  open env use {fs, client}

  abbrev pub Error : Type 0
  Error =
      CliError client.HttpError env.value.SerdeError fs.IoError env.graph.SerdeError
        env.ledger.SerdeError

  -- The world, and the lines that have been printed.
  abbrev pub Console : Type 0
  Console = fs.World × List Text

  abbrev pub M : Type 0 → Type 0
  M A = Step Console Error A

  -- `println!`
  unfoldable pub print : List Text → M (Unit {0})
  print lines (w, out) = (ok tt, (w, out ++ lines))

  -- A step on the world that fails with an error of its own.
  unfoldable pub lift : {A E : Type 0} → (E → Error) → (fs.World → Result A E × fs.World) → M A
  lift wrap m (w, out) =
      let (r, w') = m w in elim r [ ok a ↦ (ok a, (w', out)) | err e ↦ (err (wrap e), (w', out)) ]

  pub lift-world :
      {A E : Type 0} (wrap : E → Error) (m : fs.World → Result A E × fs.World) (w : fs.World)
      (out : List Text)
      → (lift wrap m (w, out)).1.0 ≡ (m w).1
  unfolding lift
  lift-world wrap m w out = ground arith

  -- `Ok(resp) if resp.status().is_success() => resp.json().await.ok(), _ => None`
  unfoldable pub decode : {A : Type 0} → Json A → Result client.Response client.HttpError → Option A
  decode js (err e) = none
  decode js (ok resp) =
      if client.is_success resp
      then elim (client.body resp) [
        | err e ↦ none
        | ok s ↦ elim (js.from_str s) [ ok a ↦ some a | err e ↦ none ]
      ]
      else none

  unfoldable pub fetch : {A : Type 0} → Json A → Text → M (Option A)
  fetch js url (w, out) = let (r, w') = client.get url w in (ok (decode js r), (w', out))

  -- `match fetched { Some(a) => a, None => … }`
  abbrev pub or_local : {A : Type 0} → Option A → M A → M A
  or_local (some a) m = pure (ok a)
  or_local none m = m

  -- A table, or the line that stands in for an empty one.
  unfoldable pub print_table :
      {A : Type 0} → Text → List Text → (A → List Text) → List A → M (Unit {0})
  unfolding repeat row print
  print_table empty header cells [] = print (empty ∷ [])
  print_table empty header cells (x ∷ xs) =
      print (row header ∷ repeat 110 b'-' ∷ map (λ x. row (cells x)) (x ∷ xs))

  -- A request that the daemon answers well goes on with the answer, any other with what is local.
  pub fetch-some :
      {A B : Type 0} (js : Json A) (url : Text) (m : M A) (k : A → M B) (w : fs.World)
      (out : List Text) (a : A)
      → decode js (client.get url w).0 ≡ some a
      → (fetch js url >>= λ o. (or_local o m >>= k)) (w, out) ≡ k a ((client.get url w).1, out)
  unfolding ◌>>=◌ fetch pure
  fetch-some js url m k w out a e = rw e refl

  pub fetch-none :
      {A B : Type 0} (js : Json A) (url : Text) (m : M A) (k : A → M B) (w : fs.World)
      (out : List Text)
      → decode js (client.get url w).0 ≡ none
      → (fetch js url >>= λ o. (or_local o m >>= k)) (w, out)
        ≡ (m >>= k) ((client.get url w).1, out)
  unfolding ◌>>=◌ fetch pure
  fetch-none js url m k w out e = rw e refl

  -- A step that looks at the world, and then uses what it finds.
  pub lift-found :
      {A B E : Type 0} (wrap : E → Error) (look : fs.World → Result A E) (k : A → M B)
      (w : fs.World) (out : List Text) (a : A)
      → look w ≡ ok a
      → (lift wrap (λ w. (look w, w)) >>= k) (w, out) ≡ k a (w, out)
  unfolding ◌>>=◌ lift
  lift-found wrap look k w out a e = ground arith

  -- A table does not depend on the world, and never fails.
  pub print_table-lines :
      {A : Type 0} (empty : Text) (header : List Text) (cells : A → List Text) (xs : List A)
      (w w' : fs.World) (out : List Text)
      → ((print_table empty header cells xs (w, out)).0 ≡ ok tt)
        × ((print_table empty header cells xs (w', out)).0 ≡ ok tt)
        × ((print_table empty header cells xs (w, out)).1.1
            ≡ (print_table empty header cells xs (w', out)).1.1)
  unfolding print_table print
  print_table-lines empty header cells [] w w' out = (refl, refl, refl)
  print_table-lines empty header cells (x ∷ xs) w w' out = (refl, refl, refl)

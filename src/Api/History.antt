-- ===== src/Api/History.antt =====
-- src/api.rs, the listings: the log of attempts, filtered, the search by hash, and the listings of the
-- facts and of the ledger's entries.
use researcher_agent_kube_en.Base.{
  ◌≡◌, Bool, true, not, ◌||◌, ◌==◌, List, Option, none, some, Text, lit, text_eq, text_eq_iff,
  retain, mem-retain, Mem, ◌↔◌, if◌then◌else◌, Map, ◌&&◌, false, [], ◌∷◌, ap, ◌∙◌, refl, arith,
}
use researcher_agent_kube_en.Base.Maps.{values, lookup}
use researcher_agent_kube_en.FactGraph.{FactNode, VerificationAttempt}
use researcher_agent_kube_en.Ledger.{LedgerEntry}
use researcher_agent_kube_en.Api.{AppState, HistoryQueryParams}

-- `if let Some(x) = filter { attempts.retain(…) }`
unfoldable pub retain_if {ℓ} :
    {A : Type ℓ} {B : Type 0} → Option B → (B → A → Bool) → List A → List A
retain_if none test xs = xs
retain_if (some b) test xs = retain (test b) xs

-- The test that a status asks for; an unknown status asks for nothing.
unfoldable pub status_test : Text → VerificationAttempt → Bool
status_test status a =
    if text_eq status (lit "passed")
      || text_eq status (lit "success")
      || text_eq status (lit "true")
    then a.success
    else if text_eq status (lit "failed")
        || text_eq status (lit "failure")
        || text_eq status (lit "false")
    then not a.success
    else true

-- The three filters of `list_history`, one after the other.
unfoldable pub filter_attempts :
    HistoryQueryParams → List VerificationAttempt → List VerificationAttempt
unfolding retain_if status_test
filter_attempts params attempts =
    retain_if params.epoch (λ epoch a. a.epoch == epoch)
      (retain_if params.status status_test
        (retain_if params.backend (λ backend a. text_eq a.backend backend) attempts))

unfoldable pub list_history :
    {V F : Type 0} → AppState V F → HistoryQueryParams → List VerificationAttempt
unfolding filter_attempts
list_history state params = filter_attempts params state.fact_graph.attempts

unfoldable pub search_history_by_hash :
    {V F : Type 0} → AppState V F → Text → List VerificationAttempt
search_history_by_hash state hash =
    retain (λ a. text_eq a.payload_hash hash) state.fact_graph.attempts

unfoldable pub list_facts : {V F : Type 0} → AppState V F → List FactNode
list_facts state = values state.fact_graph.nodes

unfoldable pub list_ground_vectors : {V F : Type 0} → AppState V F → List (LedgerEntry F)
list_ground_vectors state = values state.ledger.entries

-- The words for a status, and the outcome that each asks for.
abbrev pub statuses : Map Bool
statuses =
    (lit "passed", true)
    ∷ (lit "success", true)
    ∷ (lit "true", true)
    ∷ (lit "failed", false)
    ∷ (lit "failure", false)
    ∷ (lit "false", false)
    ∷ []

-- An option that is not given allows everything.
abbrev pub allows {ℓ} : {B : Type ℓ} → Option B → (B → Bool) → Bool
allows none test = true
allows (some b) test = test b

abbrev pub same_outcome : Bool → Bool → Bool
same_outcome success true = success
same_outcome success false = not success

-- The outcome that a status asks for; a word that is none of the six asks for none.
abbrev pub wanted_outcome : Option Text → Option Bool
wanted_outcome none = none
wanted_outcome (some status) = lookup status statuses

-- What a query selects, on one attempt.
abbrev pub selects : HistoryQueryParams → VerificationAttempt → Bool
selects params a =
    allows params.backend (λ backend. text_eq a.backend backend)
    && (allows (wanted_outcome params.status) (same_outcome a.success)
        && allows params.epoch (λ epoch. a.epoch == epoch))

retain_if-retain {ℓ} :
    {A : Type ℓ} {B : Type 0} (o : Option B) (test : B → A → Bool) (xs : List A)
    → retain_if o test xs ≡ retain (λ x. allows o (λ b. test b x)) xs
unfolding retain_if retain
retain_if-retain none test [] = refl
retain_if-retain none test (x ∷ xs) = ap (◌∷◌ x) (retain_if-retain none test xs)
retain_if-retain (some b) test xs = refl

retain-retain {ℓ} :
    {A : Type ℓ} (p q : A → Bool) (xs : List A)
    → retain p (retain q xs) ≡ retain (λ x. q x && p x) xs
unfolding retain
retain-retain p q [] = refl
retain-retain p q (x ∷ xs) = ground (arith, retain-retain p q xs)

retain-ext {ℓ} :
    {A : Type ℓ} (p q : A → Bool) (xs : List A) → ((x : A) → p x ≡ q x) → retain p xs ≡ retain q xs
unfolding retain
retain-ext p q [] h = refl
retain-ext p q (x ∷ xs) h = ground (arith, h x, retain-ext p q xs h)

text_eq_comm : (s t : Text) → text_eq s t ≡ text_eq t s
text_eq_comm s t = ground (arith, text_eq_iff s t, text_eq_iff t s)

-- The chain of tests is the table's.
test_chain :
    (p1 p2 p3 f1 f2 f3 success : Bool)
    → (if p1 || p2 || p3 then success else if f1 || f2 || f3 then not success else true)
      ≡ allows {B = Bool}
          (if p1
            then some true
            else if p2
            then some true
            else if p3
            then some true
            else if f1
            then some false
            else if f2
            then some false
            else if f3
            then some false
            else none)
          (same_outcome success)
test_chain true p2 p3 f1 f2 f3 success = refl
test_chain false true p3 f1 f2 f3 success = refl
test_chain false false true f1 f2 f3 success = refl
test_chain false false false true f2 f3 success = refl
test_chain false false false false true f3 success = refl
test_chain false false false false false true success = refl
test_chain false false false false false false success = refl

status_test-statuses :
    (status : Text) (a : VerificationAttempt)
    → status_test status a ≡ allows (lookup status statuses) (same_outcome a.success)
unfolding status_test lookup
status_test-statuses status a =
    rw
      (
        text_eq_comm (lit "passed") status,
        text_eq_comm (lit "success") status,
        text_eq_comm (lit "true") status,
        text_eq_comm (lit "failed") status,
        text_eq_comm (lit "failure") status,
        text_eq_comm (lit "false") status,
      )
      (test_chain (text_eq status (lit "passed")) (text_eq status (lit "success"))
        (text_eq status (lit "true")) (text_eq status (lit "failed"))
        (text_eq status (lit "failure")) (text_eq status (lit "false")) a.success)

allows-status :
    (status : Option Text) (a : VerificationAttempt)
    → allows status (λ s. status_test s a) ≡ allows (wanted_outcome status) (same_outcome a.success)
allows-status none a = refl
allows-status (some status) a = status_test-statuses status a

and_assoc : (a b c : Bool) → ((a && b) && c) ≡ (a && (b && c))
and_assoc true b c = refl
and_assoc false b c = refl

-- The history is the log of attempts, in its order and with every repetition, without the attempts that a
-- filter excludes: those of another backend, of the other outcome than the status asks for, or of
-- another epoch. `passed`, `success` and `true` ask for a success, `failed`, `failure` and `false` for a failure;
-- any other status excludes nothing, as does a filter that is not given.
pub list_history-selects :
    {V F : Type 0} (state : AppState V F) (params : HistoryQueryParams)
    → list_history state params ≡ retain (selects params) state.fact_graph.attempts
unfolding list_history filter_attempts
list_history-selects state params =
    let attempts = state.fact_graph.attempts in
    let by_backend : VerificationAttempt → Bool =
      λ a. allows params.backend (λ backend. text_eq a.backend backend) in
    let by_status : VerificationAttempt → Bool = λ a. allows params.status (λ s. status_test s a) in
    let by_epoch : VerificationAttempt → Bool =
      λ a. allows params.epoch (λ epoch. a.epoch == epoch) in
    retain_if-retain params.epoch (λ epoch a. a.epoch == epoch) _
    ∙ ap (retain by_epoch) (
        retain_if-retain params.status status_test _
        ∙ ap (retain by_status)
            (retain_if-retain params.backend (λ backend a. text_eq a.backend backend) attempts))
    ∙ ap (retain by_epoch) (retain-retain by_status by_backend attempts)
    ∙ retain-retain by_epoch (λ a. by_backend a && by_status a) attempts
    ∙ retain-ext _ (selects params) attempts (λ a.
      and_assoc (by_backend a) (by_status a) (by_epoch a)
      ∙ ap (λ b. by_backend a && (b && by_epoch a)) (allows-status params.status a))

-- The search by hash returns exactly the attempts with that hash.
pub search_history_by_hash-mem :
    {V F : Type 0} (state : AppState V F) (hash : Text) (a : VerificationAttempt)
    → Mem a (search_history_by_hash state hash)
      ↔ (Mem a state.fact_graph.attempts × (a.payload_hash ≡ hash))
unfolding search_history_by_hash
search_history_by_hash-mem state hash a =
    let kept =
      mem-retain (λ (a : VerificationAttempt). text_eq a.payload_hash hash)
        state.fact_graph.attempts a in
    (
      λ m. ((kept.0 m).0, (text_eq_iff _ hash).0 (kept.0 m).1),
      λ p. kept.1 (p.0, (text_eq_iff _ hash).1 p.1),
    )

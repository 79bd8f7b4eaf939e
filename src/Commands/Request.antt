-- ===== src/Commands/Request.antt =====
-- src/main.rs, the URL of `list-history`, against the query that src/api.rs takes: the names of the fields of
-- `HistoryQueryParams`, which axum's `Query` reads from the pairs of the URL.
use mathlib.Core.Option
use researcher_agent_kube_en.Base.{
  ℕ, ◌≡◌, refl, ◌<◌, ◌||◌, ◌&&◌, ◌==◌, leb, Bool, true, [], ◌∷◌, ◌++◌, Option, none, some, Text,
  lit, Map, arith, text_eq,
}
use researcher_agent_kube_en.Base.Strings.{join}
use researcher_agent_kube_en.Base.Decimal.{decimal, decimal-AllDigits, AllDigits, u64_mod}
use researcher_agent_kube_en.Base.Maps.{lookup}
use researcher_agent_kube_en.Config.{Cli}
use researcher_agent_kube_en.Api.{HistoryQueryParams}
use researcher_agent_kube_en.Commands.Console.{base_url}
use researcher_agent_kube_en.Commands.History.{history_url}

-- A character that stands for itself in a URL: a letter, a digit, `-`, `.`, `_` or `~`.
abbrev pub is_unreserved : ℕ → Bool
is_unreserved c =
    (leb b'0' c && leb c b'9')
    || (leb b'a' c && leb c b'z')
    || (leb b'A' c && leb c b'Z')
    || c == b'-'
    || c == b'.'
    || c == b'_'
    || c == b'~'

abbrev pub IsPlain : Text → Type 0
IsPlain [] = Unit
IsPlain (c ∷ s) = (is_unreserved c ≡ true) × IsPlain s

abbrev pub AllPlain : Map Text → Type 0
AllPlain [] = Unit
AllPlain ((name, value) ∷ pairs) = IsPlain name × IsPlain value × AllPlain pairs

-- An option that is given is plain.
abbrev pub PlainIfGiven : Option Text → Type 0
PlainIfGiven none = Unit
PlainIfGiven (some s) = IsPlain s

-- An epoch that is given is a `u64`.
abbrev pub SmallIfGiven : Option ℕ → Type 0
SmallIfGiven none = Unit
SmallIfGiven (some n) = n < u64_mod

-- The query of some pairs: `name=value`, with `&` in between.
abbrev pub query_string : Map Text → Text
query_string [] = []
query_string ((name, value) ∷ []) = name ++ b'=' ∷ value
query_string ((name, value) ∷ pair ∷ pairs) =
    (name ++ b'=' ∷ value) ++ (b'&' ∷ query_string (pair ∷ pairs))

-- The address of the daemon's history, with a query if there are pairs.
abbrev pub history_address : {F : Type 0} → Cli F → Map Text → Text
history_address cli [] = lit "http://127.0.0.1:" ++ (decimal cli.port ++ lit "/api/v1/history")
history_address cli (pair ∷ pairs) =
    (lit "http://127.0.0.1:" ++ (decimal cli.port ++ lit "/api/v1/history"))
    ++ (b'?' ∷ query_string (pair ∷ pairs))

-- The pairs that the options stand for.
abbrev given : Text → Option Text → Map Text
given name none = []
given name (some value) = (name, value) ∷ []

abbrev pub pairs_of : (backend status : Option Text) (epoch : Option ℕ) → Map Text
pairs_of backend status epoch =
    given (lit "backend") backend
    ++ (given (lit "status") status ++ given (lit "epoch") (Option.map decimal epoch))

-- An epoch that is given has to be a number.
abbrev pub read_epoch : (Text → Option ℕ) → Option Text → Option (Option ℕ)
read_epoch parse_u64 none = some none
read_epoch parse_u64 (some s) = Option.map some (parse_u64 s)

-- What `Query<HistoryQueryParams>` makes of the pairs: the fields by their names.
abbrev pub params_of : (Text → Option ℕ) → Map Text → Option HistoryQueryParams
params_of parse_u64 pairs =
    Option.map
      (λ epoch. record {
        backend = lookup (lit "backend") pairs;
        status = lookup (lit "status") pairs;
        epoch = epoch;
      })
      (read_epoch parse_u64 (lookup (lit "epoch") pairs))

AllDigits-IsPlain : (s : Text) → AllDigits s → IsPlain s
AllDigits-IsPlain [] h = tt
AllDigits-IsPlain (c ∷ s) h = (ground arith, AllDigits-IsPlain s h.2)

module _ {F : Type 0} (cli : Cli F) where
  -- The client asks at the address of the pairs.
  pub history_url-address :
      (backend status : Option Text) (epoch : Option ℕ)
      → history_url cli backend status epoch ≡ history_address cli (pairs_of backend status epoch)
  unfolding history_url base_url join lit
  history_url-address none none none = refl
  history_url-address (some b) none none = refl
  history_url-address none (some s) none = refl
  history_url-address none none (some n) = refl
  history_url-address (some b) (some s) none = refl
  history_url-address (some b) none (some n) = refl
  history_url-address none (some s) (some n) = refl
  history_url-address (some b) (some s) (some n) = refl

AllPlain-append : (ps qs : Map Text) → AllPlain ps → AllPlain qs → AllPlain (ps ++ qs)
AllPlain-append [] qs hp hq = hq
AllPlain-append ((name, value) ∷ ps) qs hp hq = (hp.0, hp.1, AllPlain-append ps qs hp.2 hq)

AllPlain-given :
    (name : Text) (value : Option Text)
    → IsPlain name
    → PlainIfGiven value
    → AllPlain (given name value)
AllPlain-given name none hn hv = tt
AllPlain-given name (some value) hn hv = (hn, hv, tt)

decimal-PlainIfGiven : (epoch : Option ℕ) → PlainIfGiven (Option.map decimal epoch)
decimal-PlainIfGiven none = tt
decimal-PlainIfGiven (some n) = AllDigits-IsPlain (decimal n) (decimal-AllDigits n)

backend-IsPlain : IsPlain (lit "backend")
unfolding lit
backend-IsPlain = (refl, (refl, (refl, (refl, (refl, (refl, (refl, tt)))))))

status-IsPlain : IsPlain (lit "status")
unfolding lit
status-IsPlain = (refl, (refl, (refl, (refl, (refl, (refl, tt))))))

epoch-IsPlain : IsPlain (lit "epoch")
unfolding lit
epoch-IsPlain = (refl, (refl, (refl, (refl, (refl, tt)))))

pub AllPlain-pairs_of :
    (backend status : Option Text) (epoch : Option ℕ)
    → PlainIfGiven backend
    → PlainIfGiven status
    → AllPlain (pairs_of backend status epoch)
AllPlain-pairs_of backend status epoch hb hs =
    AllPlain-append (given (lit "backend") backend) _
      (AllPlain-given (lit "backend") backend backend-IsPlain hb)
      (AllPlain-append (given (lit "status") status) _
        (AllPlain-given (lit "status") status status-IsPlain hs)
        (AllPlain-given (lit "epoch") (Option.map decimal epoch) epoch-IsPlain
          (decimal-PlainIfGiven epoch)))

-- The pairs read back as the options.
pub params_of-pairs_of :
    (parse_u64 : Text → Option ℕ) (backend status : Option Text) (epoch : Option ℕ)
    → ((n : ℕ) → n < u64_mod → parse_u64 (decimal n) ≡ some n)
    → SmallIfGiven epoch
    → params_of parse_u64 (pairs_of backend status epoch)
      ≡ some (record { backend = backend; status = status; epoch = epoch })
unfolding lookup text_eq lit
params_of-pairs_of parse_u64 none none none reads small = refl
params_of-pairs_of parse_u64 (some b) none none reads small = refl
params_of-pairs_of parse_u64 none (some s) none reads small = refl
params_of-pairs_of parse_u64 (some b) (some s) none reads small = refl
params_of-pairs_of parse_u64 none none (some n) reads small = rw (reads n small) refl
params_of-pairs_of parse_u64 (some b) none (some n) reads small = rw (reads n small) refl
params_of-pairs_of parse_u64 none (some s) (some n) reads small = rw (reads n small) refl
params_of-pairs_of parse_u64 (some b) (some s) (some n) reads small = rw (reads n small) refl

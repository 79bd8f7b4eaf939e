-- ===== src/Examples.antt =====
-- The parts of the world that the program calls, instantiated: small functions in their place, and the
-- data on which the examples of the child modules run the theorems.
pub mod Signing
pub mod Stores
pub mod Gate
pub mod Provers
pub mod Handlers
pub mod Pods
pub mod Agents
pub mod Daemons
pub mod CommandLine
pub mod Requests
pub mod LostUpdate
use researcher_agent_kube_en.Base.{
  ℕ, ◌+◌, ◌*◌, ◌/◌, ◌≡◌, refl, Bool, true, false, ◌&&◌, ◌==◌, ltb, ◌++◌, List, [], ◌∷◌, Option,
  none, some, Result, ok, err, Text, lit, text_eq, text_eq_refl, if◌then◌else◌, is_some, arith, Map,
  any, retain, not,
}
use researcher_agent_kube_en.Base.Maps.{lookup, insert, contains_key}
use researcher_agent_kube_en.Base.Maps.Laws.{lookup-insert}
use researcher_agent_kube_en.Platform.{Digest, IsCollisionFree, Files, IsReadBack, Json, Values}
use researcher_agent_kube_en.Platform.Float.{Float}
use researcher_agent_kube_en.Platform.Ed25519.{Ed25519, IsCorrect}
use researcher_agent_kube_en.Platform.Subprocess.{Subprocess, Outcome}
use researcher_agent_kube_en.State.{AgentState}
use researcher_agent_kube_en.Controller.{Kube}

-- A digest that is the text itself.
abbrev pub plain_digest : Digest
plain_digest = record { sha256 = λ s. s; hex_encode = λ b. b }

pub plain_digest-IsCollisionFree : IsCollisionFree plain_digest
plain_digest-IsCollisionFree = record { sha256_injective = λ s t e. e; hex_injective = λ a b e. e }

-- Files as a map of texts; a file that is missing is the only error.
abbrev read : Option Text → Result Text (Unit {0})
read none = err tt
read (some s) = ok s

abbrev pub disk : Files
disk = record {
  World = Map Text;
  IoError = Unit;
  io_text = λ e. lit "no such file";
  try_exists = λ path w. ok (contains_key path w);
  read_to_string = λ path w. read (lookup path w);
  write = λ path s w. (ok tt, insert path s w);
}

pub disk-IsReadBack : IsReadBack disk
unfolding contains_key
disk-IsReadBack = record {
  written_exists = λ path s w e. ground (arith, lookup-insert path path s w, text_eq_refl path);
  written_read = λ path s w e. ground (arith, lookup-insert path path s w, text_eq_refl path);
}

-- JSON of which one text is known.
abbrev pub json_of : {A : Type 0} → Text → A → Json A
json_of text a = record {
  SerdeError = Unit;
  serde_text = λ e. lit "no JSON";
  to_string = λ b. ok text;
  from_str = λ s. if text_eq s text then ok a else err tt;
}

abbrev pub values_model : Values
values_model = record {
  Value = List Text;
  null = [];
  string = λ s. s ∷ [];
  to_value = λ ss. some ss;
}

-- Numbers in thousandths; the operations are as rough as the examples allow.
abbrev pub thousandths : Float
thousandths = record {
  F64 = ℕ;
  add = λ x y. x + y;
  mul = λ x y. x * y / 1000;
  div = λ x y. x * 1000 / y;
  max = λ x y. if ltb x y then y else x;
  sqrt = λ x. x;
  lt = ltb;
  eq = λ x y. x == y;
  of_u32 = λ n. n * 1000;
  zero = 0;
  one = 1000;
  two = 2000;
  nano = 1;
  sum_start = 0;
  print = λ x. x ∷ [];
  parse = λ s. none;
}

-- A signature is the key and the message.
abbrev pub open_signatures : Ed25519
open_signatures = record {
  SigningKey = ℕ;
  VerifyingKey = ℕ;
  Signature = ℕ × Text;
  verifying_key = λ k. k;
  sign = λ k m. (k, m);
  signature_bytes = λ s. s.0 ∷ s.1;
  key_bytes = λ k. k ∷ [];
  verify = λ k m s. (k == s.0) && text_eq m s.1;
}

==_refl : (n : ℕ) → (n == n) ≡ true
==_refl n = ground arith

pub open_signatures-IsCorrect : IsCorrect open_signatures
open_signatures-IsCorrect = record {
  sign_verifies = λ k m. ground (arith, ==_refl k, text_eq_refl m);
}

-- Processes that all have the same outcome, on a disk where every write succeeds.
abbrev pub prover : Outcome (Unit {0}) (Unit {0}) → Subprocess (Map Text) (Unit {0})
prover outcome = record {
  Utf8 = Unit;
  utf8_text = λ e. lit "invalid";
  tempfile_in = λ dir prefix suffix w. (ok (dir ++ (prefix ++ suffix)), w);
  create = λ path w. (ok tt, insert path [] w);
  write_all = λ path s w. (ok tt, insert path s w);
  flush = λ path w. (ok tt, w);
  output = λ n command w. (outcome, w);
  debug_text = λ s. s;
}

-- A cluster that is the list of its pods' names; the only error is 404.
abbrev pub named_pods : Kube
named_pods = record {
  Cluster = List Text;
  KubeError = ℕ;
  api_code = λ e. some e;
  create = λ namespace pod c. (ok tt, c ++ pod.name ∷ []);
  delete = λ namespace name c.
      if any (λ p. text_eq p name) c
      then (ok tt, retain (λ p. not (text_eq p name)) c)
      else (err 404, c);
  patch_labels =
      λ namespace name labels c. (if any (λ p. text_eq p name) c then ok tt else err 404, c);
}

-- A cluster that does what it is asked.
abbrev pub obedient_pods : Kube
obedient_pods = record {
  Cluster = List Text;
  KubeError = ℕ;
  api_code = λ e. some e;
  create = λ namespace pod c. (ok tt, c ++ pod.name ∷ []);
  delete = λ namespace name c. (ok tt, retain (λ p. not (text_eq p name)) c);
  patch_labels = λ namespace name labels c. (ok tt, c);
}

-- `thousandths`, where a number is printed as one character and read back.
abbrev read_number : Text → Option ℕ
read_number (n ∷ []) = some n
read_number s = none

abbrev pub spoken : Float
spoken = record thousandths { parse = read_number }

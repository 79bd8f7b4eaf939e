-- ===== src/Platform.antt =====
-- What the program calls and does not implement, as records of operations: the crates `sha2`,
-- `hex`, `serde_json` and `ed25519_dalek`, and the file system behind `tokio::fs`. What the program
-- relies on is stated beside each record, as a record of laws that a theorem takes as a hypothesis.
-- A UUID (`uuid::Uuid::new_v4`) and the time (`chrono::Utc::now`) are arguments of the functions
-- that draw them.
pub mod Float
pub mod Ed25519
pub mod Subprocess
use researcher_agent_kube_en.Base.{ℕ, Option, ◌≡◌, Bool, true, List, Result, ok, Text}

-- An instant, as a count of nanoseconds from the epoch.
abbrev pub Timestamp : Type 0
Timestamp = ℕ

-- `sha2::Sha256` on the UTF-8 of a text, and `hex::encode`.
pub record Digest : Type 0 where
  pub sha256 : Text → List ℕ
  pub hex_encode : List ℕ → Text

-- Two texts that the program meets have different digests, and `hex::encode` loses nothing.
pub record IsCollisionFree (d : Digest) : Type 0 where
  pub sha256_injective : (s t : Text) → d.sha256 s ≡ d.sha256 t → s ≡ t
  pub hex_injective : (a b : List ℕ) → d.hex_encode a ≡ d.hex_encode b → a ≡ b

-- The hash by which payloads and states are known: `hex::encode(Sha256::digest(text))`.
abbrev pub hash_hex : Digest → Text → Text
hash_hex d s = d.hex_encode (d.sha256 s)

-- The files behind `tokio::fs`. An operation may fail in any state of the world.
pub record Files : Type 1 where
  pub World : Type 0
  pub IoError : Type 0
  pub io_text : IoError → Text
  pub try_exists : Text → World → Result Bool IoError
  pub read_to_string : Text → World → Result Text IoError
  pub write : Text → Text → World → Result (Unit {0}) IoError × World

-- What a write that succeeded has left.
pub record IsReadBack (f : Files) : Type 0 where
  pub written_exists :
      (path s : Text) (w : f.World)
      → (f.write path s w).0 ≡ ok tt
      → f.try_exists path (f.write path s w).1 ≡ ok true
  pub written_read :
      (path s : Text) (w : f.World)
      → (f.write path s w).0 ≡ ok tt
      → f.read_to_string path (f.write path s w).1 ≡ ok s

-- `serde_json` at one type.
pub record Json (A : Type 0) : Type 1 where
  pub SerdeError : Type 0
  pub serde_text : SerdeError → Text
  pub to_string : A → Result Text SerdeError
  pub from_str : Text → Result A SerdeError

-- `serde_json::Value`, as far as the program builds such values itself.
pub record Values : Type 1 where
  pub Value : Type 0
  pub null : Value
  -- `Value::String`
  pub string : Text → Value
  -- `serde_json::to_value` on a vector of strings; `none` is its error.
  pub to_value : List Text → Option Value

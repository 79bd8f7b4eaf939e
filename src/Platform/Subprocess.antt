-- ===== src/Platform/Subprocess.antt =====
-- Temporary files and subprocesses: `tempfile`, `tokio::fs::File` and `tokio::process::Command`
-- under `tokio::time::timeout`, over the same world as the files.
use researcher_agent_kube_en.Base.{ℕ, Bool, List, Result, Text}

pub record Command : Type 0 where
  pub program : Text
  pub args : List Text
  -- `cmd.stdin(Stdio::piped())` was called.
  pub stdin_piped : Bool

-- What a process that ended has left. Its output is bytes, which may be no UTF-8.
pub record Output (Utf8 : Type 0) : Type 0 where
  pub status_success : Bool
  pub status_text : Text
  pub stdout : Result Text Utf8
  pub stderr : Result Text Utf8

pub data Outcome (Io Utf8 : Type 0) : Type 0 where
  timed_out : Outcome Io Utf8
  spawn_failed : Io → Outcome Io Utf8
  finished : Output Utf8 → Outcome Io Utf8

pub record Subprocess (World Io : Type 0) : Type 1 where
  pub Utf8 : Type 0
  pub utf8_text : Utf8 → Text
  -- The path of a new file in a directory, between a prefix and a suffix.
  pub tempfile_in : (dir prefix suffix : Text) → World → Result Text Io × World
  pub create : Text → World → Result (Unit {0}) Io × World
  pub write_all : Text → Text → World → Result (Unit {0}) Io × World
  pub flush : Text → World → Result (Unit {0}) Io × World
  -- `timeout(Duration::from_secs(n), cmd.output())`
  pub output : ℕ → Command → World → Outcome Io Utf8 × World
  -- `{:?}` on a text, which escapes by Unicode's tables.
  pub debug_text : Text → Text

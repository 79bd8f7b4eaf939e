-- ===== src/Lib.antt =====
-- RAKET, a Kubernetes controller that rotates research agents, verifies what they find, and steers
-- them. This library models its Rust code and proves what makes the parts correct.
--
-- The program. An agent runs in a pod. Each epoch the controller deletes the active pod; the shim in
-- the pod answers SIGTERM by posting the agent's signed state to the controller. A rotation that finds
-- a pending state makes a pod that starts from it; any other promotes a warm pod. Agents send payloads
-- to be verified by Lean, by Z3 or by a program run in a sandbox; the attempts are logged and the
-- successes are committed as facts. A ledger holds the user's steering directives, and a gate scores an agent's
-- context against an objective and the directives, and signs what passes.
--
-- The files, each with the part of the repository that it models:
--   State              src/state.rs       the agent's state, and its signature
--   FactGraph          src/fact_graph.rs  the facts and the log of attempts, with their file
--   Ledger             src/ledger.rs      the steering directives, with their file
--   Alignment          src/alignment.rs   embeddings, the score, and the gate
--   Verify             src/verify.rs      the three backends, and how their output is judged
--   Api                src/api.rs         the HTTP handlers on the state that they share,
--                                       and their sections as interleaved steps (Api/Server)
--   Config             src/config.rs and the options of src/cli.rs
--   Controller         src/controller.rs  manifests, the warm pool, the rotation, the epoch loop
--   Shim               src/shim.rs and src/shim_main.rs  the start of a pod's shim, the signals, and the
--                                       signed state that it sends
--   Daemon             src/main.rs, `main`  the start of the daemon, its two states, and its tasks' steps
--   Commands           src/main.rs, `execute_subcommand`, and the subcommands of src/cli.rs
-- Base holds the shared helpers, Platform the interfaces of the crates and of the operating system,
-- and Examples small instances of them on which the theorems are run.
--
-- How the code is modelled. Definitions keep the names of the Rust functions. A function that changes
-- state takes it as an argument and returns it anew behind its result; an error is the `err` of a
-- `Result`, and it comes with the state as the code leaves it there. A text is the list of its
-- characters' codes, so `lit` spells one, and a `HashMap` is an association list in some order of
-- iteration. UUIDs and times are arguments of the functions that draw them. A handler that lets go of
-- a lock takes what other tasks do meanwhile as an argument, as do a rotation and the epoch loop for
-- their waits; in Api/Server the handlers' sections are steps of their own, which those of other
-- requests come between.
--
-- What is not in the repository is a parameter with named laws: SHA-256 and hex (`Digest`), ed25519
-- (`Ed25519`), JSON (`Json`, `Values`), the files (`Files`), processes (`Subprocess`), the cluster
-- (`Kube`) and `f64` (`Float`, of which no law is assumed but where a theorem says so).
--
-- Bounds. The one fuel is that of `decimal`, twenty digits, which are enough for a `u64`. The epoch of
-- a state is below 2 ^ 64 where a theorem needs it. A word of an embedding is a `u32` with its
-- wrap-around written out.
--
-- Not modelled: the removal of temporary files, log lines, the HTTP and JSON layers of axum and serde
-- with the route table, the parsing of options (clap), the clock of the epoch loop, and the agents'
-- Python code. The registration of the signal, the requests of the client and `kubectl` are arguments.
pub mod Base
pub mod Platform
pub mod State
pub mod FactGraph
pub mod Alignment
pub mod Ledger
pub mod Verify
pub mod Api
pub mod Config
pub mod Controller
pub mod Shim
pub mod Daemon
pub mod Commands
pub mod Examples

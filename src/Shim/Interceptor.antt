-- ===== src/Shim/Interceptor.antt =====
-- src/shim.rs, `run_signal_interceptor`: the loop over the signals that the process gets.
use researcher_agent_kube_en.Base.{
  ℕ, ◌==◌, ==_iff, ◌≡◌, ◌≢◌, refl, List, [], ◌∷◌, ◌++◌, Result, ok, err, Text, lit, if◌then◌else◌,
  arith,
}
use researcher_agent_kube_en.Platform.{Digest, Timestamp}
use researcher_agent_kube_en.State.{AgentState}
use researcher_agent_kube_en.Shim.{ShimRuntime, ShimError, env, serialize_and_transmit}

abbrev pub sigterm : ℕ
sigterm = 15

-- No signal of the list is the one that the loop waits for.
abbrev pub NoSigterm : List ℕ → Type 0
NoSigterm [] = Unit
NoSigterm (s ∷ ss) = (s ≢ sigterm) × NoSigterm ss

module _ {V Http World : Type 0} (d : Digest)
    (post : Text → AgentState V → World → Result (Unit {0}) Http × World) where
  -- `while let Some(sig) = signals.next().await`, with what is left of the signals. The runtime and the
  -- time are those at the signal.
  unfoldable pub await_signals : ShimRuntime V → Timestamp → List ℕ → World → World × List ℕ
  await_signals runtime now [] w = (w, [])
  await_signals runtime now (sig ∷ signals) w =
      let rest = await_signals runtime now signals w in
      if sig == sigterm then ((serialize_and_transmit d post runtime now w).1, signals) else rest

  -- The whole function; `registered` is what `Signals::new` gives, an error as its text.
  unfoldable pub run_signal_interceptor :
      ShimRuntime V
      → Timestamp
      → Result (List ℕ) Text
      → World
      → Result (Unit {0}) (ShimError Http) × World × List ℕ
  unfolding await_signals
  run_signal_interceptor runtime now (err e) w =
      (err (env (lit "Signal registration failed: " ++ e)), w, [])
  run_signal_interceptor runtime now (ok signals) w =
      let (w', rest) = await_signals runtime now signals w in (ok tt, w', rest)

  await_signals_first :
      (runtime : ShimRuntime V) (now : Timestamp) (before after : List ℕ) (w : World)
      → NoSigterm before
      → await_signals runtime now (before ++ sigterm ∷ after) w
        ≡ ((serialize_and_transmit d post runtime now w).1, after)
  unfolding await_signals
  await_signals_first runtime now [] after w h = refl
  await_signals_first runtime now (s ∷ before) after w h =
      ground (arith, ==_iff s sigterm, await_signals_first runtime now before after w h.1)

  -- The loop ends at the first SIGTERM: the state is sent exactly once, no later signal is looked at, and
  -- the process ends well whether or not the state has arrived.
  pub run_signal_interceptor_ends :
      (runtime : ShimRuntime V) (now : Timestamp) (before after : List ℕ) (w : World)
      → NoSigterm before
      → run_signal_interceptor runtime now (ok (before ++ sigterm ∷ after)) w
        ≡ (ok tt, (serialize_and_transmit d post runtime now w).1, after)
  unfolding run_signal_interceptor
  run_signal_interceptor_ends runtime now before after w h =
      rw (await_signals_first runtime now before after w h) refl

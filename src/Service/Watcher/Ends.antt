-- ===== src/Service/Watcher/Ends.antt =====
-- A wait ends: on a machine whose clock is never set back, and whose timers wait as long as they are
-- told to, it takes at most two rounds more than polls fit into the timeout.
use codex_pat.Base.{
  Bool, Bytes, arith, false, refl, suc, true, zero, ℕ, ◌*◌, ◌+◌, ◌<◌, ◌≡◌, ◌≢◌, ◌≤◌,
}
use codex_pat.Errors.{Result, err, ok}
use codex_pat.Exec.{Exec}
use codex_pat.Exec.Runs.{
  After, Runs, Runs-assume, Runs-bind, Runs-pure, Runs-refuse_if, Runs-weaken,
}
use codex_pat.Host.{Host}
use codex_pat.Platform.{Platform}
use codex_pat.Service.{Settings}
use codex_pat.Service.Reads.{IsQuiet, ReadsKeep, quiet-rewrite_secured_credential}
use codex_pat.Service.Watcher.{
  Progress, Stability, await_watcher_state, default_poll_interval, default_timeout, next_round,
  pending, positive_or, round, settled, unstable, watch,
}
use codex_pat.Service.Watcher.Keeps.{keeps-round}

abbrev pub From : (h : Host) → ℕ → h.World → Type 0
From h t w = t ≤ h.time_now w

-- `time.Now` and `time.NewTimer`: no call sets the clock back, and a wait that is not cancelled
-- lasts as long as it is told to.
pub record Ticks (h : Host) : Type 0 where
  pub reads : (t : ℕ) → ReadsKeep h (From h t)
  pub replaces : (t : ℕ) (path text : Bytes) → IsQuiet (From h t) (h.replace_file path text)
  pub waits : (t n : ℕ) → Runs (From h t) (h.wait n) (λ _. From h (t + n)) (λ _. Unit {0})

module _ (go : Platform) (h : Host) (service : Settings) (ticks : Ticks h) (path name : Bytes)
    (disabled : Bool) (desired : Bytes) where
  abbrev pub poll : ℕ
  poll = positive_or service.poll_interval default_poll_interval

  abbrev Done : Exec h.World Bool → ℕ → Type 0
  Done m t = Runs (From h t) m (λ done _. done ≡ true) (λ _. Unit {0})

  round_from :
      (t : ℕ) (state : Stability)
      → Runs
          (From h t)
          (round go h service path name disabled desired state)
          (λ _. From h t)
          (λ _. Unit {0})
  round_from t state =
      Runs-weaken _
        (keeps-round go h service (From h t) (ticks.reads t) path name disabled desired
          (λ _.
            quiet-rewrite_secured_credential go h (From h t) (ticks.reads t) (ticks.replaces t) path
              name desired)
          state)
        (λ _ w i. i) (λ _ _. tt)

  next_ends :
      (t deadline : ℕ) (again : Stability → Exec h.World Bool)
      → ((now : ℕ) (state : Stability) → t ≤ now → now ≤ deadline → Done (again state) (now + poll))
      → (p : Progress)
      → Done (next_round go h service path name disabled desired deadline again p) t
  unfolding next_round
  next_ends t deadline again a settled = Runs-pure true (λ w i. refl)
  next_ends t deadline again a (pending state) =
      Runs-bind {J = λ now w. (t ≤ now) × From h now w} _ _
        (record { from = λ w i. (i, omega arith) })
        λ now. Runs-assume _ λ later. Runs-bind _ _ (Runs-refuse_if _ _ (λ _ _. tt)) λ _.
          Runs-assume _
            λ early. Runs-bind _ _ (ticks.waits now poll) λ _. a now state later (ground arith)

  watch_ends :
      (fuel deadline t : ℕ) (state : Stability)
      → deadline < t + fuel * poll
      → Done (watch go h service path name disabled desired (suc fuel) deadline state) t
  unfolding watch
  watch_ends zero deadline t state e =
      Runs-bind _ _ (round_from t state)
        (next_ends t deadline _ λ now state' later early. absurd (omega arith))
  watch_ends (suc fuel) deadline t state e = Runs-bind _ _ (round_from t state) (
      next_ends t deadline _
        λ now state' later early. watch_ends fuel deadline (now + poll) state' (grind arith))

  state_ends :
      (fuel t : ℕ)
      → positive_or service.timeout default_timeout < fuel * poll
      → Done (await_watcher_state go h service path name disabled desired (suc fuel)) t
  unfolding await_watcher_state
  state_ends fuel t e =
      Runs-bind {J = λ now w. From h now w} _ _ (record { from = λ w i. omega arith })
        λ now.
          watch_ends fuel (now + positive_or service.timeout default_timeout) now unstable
            (grind arith)

  -- With fuel for one round more than a number of polls that together last longer than the timeout,
  -- so for two rounds more than polls fit into it, `awaitWatcherState` never runs out of fuel: whatever
  -- the host answers, the wait ends, either with the state reached or with an error of the code. The
  -- clock is never set back, and a wait lasts as long as it is told to.
  pub await_watcher_state_ends :
      (fuel : ℕ) (w : h.World)
      → positive_or service.timeout default_timeout < fuel * poll
      → (await_watcher_state go h service path name disabled desired (suc fuel) w).0 ≢ ok false
  await_watcher_state_ends fuel w e = done _ ((state_ends fuel zero e).from w (omega arith))
    where
      done :
          (p : Result Bool × h.World) → After (λ b _. b ≡ true) (λ _. Unit {0}) p → p.0 ≢ ok false
      done (ok b, s) q e' = cc
      done (err x, s) q e' = cc

-- ===== src/Service/Watcher.antt =====
-- The waits for the host's file watcher (internal/pat/service.go, `awaitWatcherState`). The loop is
-- bounded by fuel, one unit for a round; a round ends the loop, or waits for a poll interval.
pub mod Keeps
pub mod Ends
use codex_pat.Base.{
  Bool, Bytes, [], false, if◌then◌else◌, leb, ltb, not, same, suc, true, zero, ℕ, ◌&&◌, ◌+◌, ◌-◌,
  ◌==◌, ◌||◌,
}
use codex_pat.Errors.{Result, err, ok, plain}
use codex_pat.Exec.{Exec, attempt, pure, refuse_if, ◌>>=◌, ◌>>◌}
use codex_pat.Host.{FileEntry, FileInfo, Host}
use codex_pat.Platform.{Platform}
use codex_pat.Service.{
  Settings, auth_index_for_file, credential_payload_equal, read_secured_credential,
  rewrite_secured_credential,
}

-- `stableSince` and `stableModTime`; 0 is the zero time.
pub record Stability : Type 0 where
  pub since : ℕ
  pub mod_time : ℕ

abbrev pub unstable : Stability
unstable = record { since = 0; mod_time = 0 }

-- What a round comes to, before the deadline is looked at.
pub data Progress : Type 0 where
  settled : Progress
  pending : Stability → Progress

abbrev pub positive_or : ℕ → ℕ → ℕ
positive_or n other = if n == 0 then other else n

abbrev pub default_timeout : ℕ
default_timeout = 5_000_000_000

abbrev pub default_poll_interval : ℕ
default_poll_interval = 25_000_000

-- `runtime.Disabled == disabled && !runtime.UpdatedAt.Before(info.ModTime())`.
unfoldable pub runtime_ready : Bool → FileInfo → FileEntry → Bool
runtime_ready true info runtime = runtime.disabled && not (ltb runtime.updated_at info.mod_time)
runtime_ready false info runtime =
    not runtime.disabled && not (ltb runtime.updated_at info.mod_time)

abbrev pub succeeded : (FileEntry → Bool) → Result FileEntry → Bool
succeeded p (ok e) = p e
succeeded p (err e) = false

module _ (go : Platform) (h : Host) (service : Settings) where
  -- What one wait is about: the file, the state that the runtime is to reach, and the contents
  -- that the file is to have; no contents where any will do.
  module _ (path name : Bytes) (disabled : Bool) (desired : Bytes) where
    abbrev pub has_desired : Bytes → Bool
    has_desired current = same desired [] || credential_payload_equal go current desired

    -- The second look, once the file has been stable for the window.
    unfoldable pub confirm : Bytes → Stability → Exec h.World Progress
    confirm index state = do
      confirmed ← read_secured_credential go h path name
      runtime ← attempt (h.auth_get_runtime index)
      pure (
          if succeeded (runtime_ready disabled confirmed.1) runtime
            && state.mod_time == confirmed.1.mod_time
            && has_desired confirmed.0
          then settled
          else pending unstable)

    -- A ready runtime: the window begins, goes on, or is over.
    unfoldable pub observe : Bytes → FileInfo → ℕ → Stability → Exec h.World Progress
    observe index info now state =
        let fresh = state.since == 0 || not (state.mod_time == info.mod_time) in
        let state' = if fresh then record { since = now; mod_time = info.mod_time } else state in
        if leb service.stable_window (now - state'.since)
        then confirm index state'
        else pure (pending state')

    -- The branch on the index, with the runtime's answer and the time of it.
    unfoldable pub check_runtime : FileInfo → Stability → Bytes → Exec h.World Progress
    check_runtime info state index = do
      runtime ← attempt (h.auth_get_runtime index)
      now ← λ w. (ok (h.time_now w), w)
      if succeeded (runtime_ready disabled info) runtime
          then observe index info now state
          else pure (pending unstable)

    -- The branch on the error of `authIndexForFile`.
    unfoldable pub check_index : FileInfo → Stability → Result Bytes → Exec h.World Progress
    check_index info state (err e) = pure (pending state)
    check_index info state (ok index) = check_runtime info state index

    -- One round of the loop.
    unfoldable pub round : Stability → Exec h.World Progress
    round state = do
      current ← read_secured_credential go h path name
      if not (has_desired current.0)
          then (rewrite_secured_credential go h path name desired >> pure (pending unstable))
          else (attempt (auth_index_for_file go h name) >>= check_index current.1 state)

    -- The end of a round: the deadline, the poll interval, and the next round.
    unfoldable pub next_round : ℕ → (Stability → Exec h.World Bool) → Progress → Exec h.World Bool
    next_round deadline again settled = pure true
    next_round deadline again (pending state) = do
      now ← λ w. (ok (h.time_now w), w)
      refuse_if (ltb deadline now) (plain "timed out waiting for CPA auth watcher")
      h.wait (positive_or service.poll_interval default_poll_interval)
      again state

    -- The loop; a loop that runs out of fuel returns `false`.
    unfoldable pub watch : ℕ → ℕ → Stability → Exec h.World Bool
    watch zero deadline state = pure false
    watch (suc fuel) deadline state = round state >>= next_round deadline (watch fuel deadline)

    -- `awaitWatcherState`.
    unfoldable pub await_watcher_state : ℕ → Exec h.World Bool
    await_watcher_state fuel = do
      now ← λ w. (ok (h.time_now w), w)
      watch fuel (now + positive_or service.timeout default_timeout) unstable

  -- `awaitWatcherStage` and `awaitWatcherPersistence`: no wait where the host has no runtime.
  unfoldable pub await_watcher_stage : ℕ → Bytes → Bytes → Exec h.World Bool
  await_watcher_stage fuel path name =
      if h.has_runtime then await_watcher_state path name true [] fuel else pure true

  unfoldable pub await_watcher_persistence : ℕ → Bytes → Bytes → Bool → Bytes → Exec h.World Bool
  await_watcher_persistence fuel path name disabled desired =
      if h.has_runtime then await_watcher_state path name disabled desired fuel else pure true

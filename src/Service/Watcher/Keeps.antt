-- ===== src/Service/Watcher/Keeps.antt =====
-- An invariant that the host's reading callbacks and the rewriting of the file keep, a wait keeps.
use codex_pat.Base.{
  Bool, Bytes, [], arith, false, if◌then◌else◌, leb, not, same, suc, zero, ℕ, ◌-◌, ◌==◌, ◌||◌, ◌≡◌,
}
use codex_pat.Errors.{Result, err, ok}
use codex_pat.Exec.{Exec}
use codex_pat.Exec.Runs.{Runs-attempt, Runs-bind, Runs-if}
use codex_pat.Host.{FileInfo, Host}
use codex_pat.Platform.{Platform}
use codex_pat.Service.{Settings, rewrite_secured_credential}
use codex_pat.Service.Reads.{
  IsQuiet, ReadsKeep, quiet-auth_index_for_file, quiet-pure, quiet-read,
  quiet-read_secured_credential, quiet-refuse_if,
}
use codex_pat.Service.Watcher.{
  Progress, Stability, await_watcher_state, check_index, check_runtime, confirm, has_desired,
  next_round, observe, pending, round, runtime_ready, settled, succeeded, unstable, watch,
}

module _ (go : Platform) (h : Host) (service : Settings) (I : h.World → Type 0) (k : ReadsKeep h I)
    (path name : Bytes) (disabled : Bool) (desired : Bytes)
    (rewrites : same desired [] ≡ false
      → IsQuiet I (rewrite_secured_credential go h path name desired)) where
  keeps-confirm :
      (index : Bytes) (state : Stability)
      → IsQuiet I (confirm go h service path name disabled desired index state)
  unfolding confirm
  keeps-confirm index state =
      Runs-bind _ _ (quiet-read_secured_credential go h I k path name) λ confirmed.
        Runs-bind _ _ (Runs-attempt _ (k.auth_get_runtime index)) λ runtime. quiet-pure _

  keeps-observe :
      (index : Bytes) (info : FileInfo) (now : ℕ) (state : Stability)
      → IsQuiet I (observe go h service path name disabled desired index info now state)
  unfolding observe
  keeps-observe index info now state =
      let fresh = state.since == 0 || not (state.mod_time == info.mod_time) in
      let state' = if fresh then record { since = now; mod_time = info.mod_time } else state in
      Runs-if (leb service.stable_window (now - state'.since)) _ _ (λ _. keeps-confirm index state')
        λ _. quiet-pure _

  keeps-check_runtime :
      (info : FileInfo) (state : Stability) (index : Bytes)
      → IsQuiet I (check_runtime go h service path name disabled desired info state index)
  unfolding check_runtime
  keeps-check_runtime info state index =
      Runs-bind _ _ (Runs-attempt _ (k.auth_get_runtime index)) λ runtime.
        Runs-bind _ _ (quiet-read _) λ now.
          Runs-if (succeeded (runtime_ready disabled info) runtime) _ _
            (λ _. keeps-observe index info now state) λ _. quiet-pure _

  keeps-check_index :
      (info : FileInfo) (state : Stability) (r : Result Bytes)
      → IsQuiet I (check_index go h service path name disabled desired info state r)
  unfolding check_index
  keeps-check_index info state (err e) = quiet-pure _
  keeps-check_index info state (ok index) = keeps-check_runtime info state index

  pub keeps-round :
      (state : Stability) → IsQuiet I (round go h service path name disabled desired state)
  unfolding round
  keeps-round state = Runs-bind _ _ (quiet-read_secured_credential go h I k path name) λ current.
      Runs-if (not (has_desired go h service path name disabled desired (current.0))) _ _
        (λ b. Runs-bind _ _ (rewrites (ground arith)) λ _. quiet-pure _)
        λ _.
          Runs-bind _ _ (Runs-attempt _ (quiet-auth_index_for_file go h I k name))
            λ r. keeps-check_index _ state r

  keeps-next_round :
      (deadline : ℕ) (again : Stability → Exec h.World Bool)
      → ((state : Stability) → IsQuiet I (again state))
      → (p : Progress)
      → IsQuiet I (next_round go h service path name disabled desired deadline again p)
  unfolding next_round
  keeps-next_round deadline again a settled = quiet-pure _
  keeps-next_round deadline again a (pending state) =
      Runs-bind _ _ (quiet-read _)
        λ now. Runs-bind _ _ (quiet-refuse_if _ _) λ _. Runs-bind _ _ (k.wait _) λ _. a state

  keeps-watch :
      (fuel deadline : ℕ) (state : Stability)
      → IsQuiet I (watch go h service path name disabled desired fuel deadline state)
  unfolding watch
  keeps-watch zero deadline state = quiet-pure _
  keeps-watch (suc fuel) deadline state =
      Runs-bind _ _ (keeps-round state)
        λ p. keeps-next_round deadline _ (λ s. keeps-watch fuel deadline s) p

  pub keeps-await_watcher_state :
      (fuel : ℕ) → IsQuiet I (await_watcher_state go h service path name disabled desired fuel)
  unfolding await_watcher_state
  keeps-await_watcher_state fuel = Runs-bind _ _ (quiet-read _) λ now. keeps-watch fuel _ unstable

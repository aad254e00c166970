-- ===== src/Tests/Waits.antt =====
-- A wait on a clock that goes as long as it is told to, and the calls of a save.
use codex_pat.Base.{[], arith, codes, false, ℕ, ◌+◌, ◌≢◌}
use codex_pat.Errors.{ok}
use codex_pat.Host.{Host}
use codex_pat.Service.Reads.{ReadsKeep}
use codex_pat.Service.Save.{save_credential}
use codex_pat.Service.Save.Trace.{IsSound, recorded}
use codex_pat.Service.Save.Trace.Order.{save_credential_order}
use codex_pat.Service.Watcher.{await_watcher_state}
use codex_pat.Service.Watcher.Ends.{From, Ticks, await_watcher_state_ends}
use codex_pat.Tests.Machine.{credential, live_host, machine, machine-IsDigest, service}

abbrev clock_host : Host
clock_host = record live_host { time_now = λ w. w; wait = λ n w. (ok tt, w + n) }

abbrev reads_of : (t : ℕ) → ReadsKeep clock_host (From clock_host t)
reads_of t = record {
  auth_list = record { from = λ w i. i };
  auth_get = λ index. record { from = λ w i. i };
  auth_get_runtime = λ index. record { from = λ w i. i };
  lstat = λ path. record { from = λ w i. i };
  read_file = λ path. record { from = λ w i. i };
  wait = λ n. record { from = λ w i. omega arith };
}

clock-Ticks : Ticks clock_host
clock-Ticks = record {
  reads = reads_of;
  replaces = λ t path text. record { from = λ w i. i };
  waits = λ t n. record { from = λ w i. omega arith };
}

await_watcher_state_ends_example :
    (await_watcher_state machine clock_host service (codes "/auths/a") (codes "a") false [] 202 7).0
    ≢ ok false
await_watcher_state_ends_example =
    await_watcher_state_ends machine clock_host service clock-Ticks (codes "/auths/a") (codes "a")
      false [] 201 7 (omega arith)

save_credential_order_example :
    IsSound machine credential
      (save_credential machine (recorded live_host) service 0 credential [] (0, [])).1.1
save_credential_order_example =
    save_credential_order machine live_host service 0 machine-IsDigest credential [] 0

-- ===== src/Service/Options.antt =====
-- The making of a service (internal/pat/service.go): `NewService` and its options. The clock, which
-- one option sets, is the host's in this model.
use codex_pat.Base.{Bytes, List, Option, [], none, some, ℕ, ◌∷◌}
use codex_pat.Service.{Settings}
use codex_pat.Service.Watcher.{default_poll_interval, default_timeout}
use codex_pat.Text.Trim.{trim}
use codex_pat.Whoami.{safe_version}

abbrev pub watcher_sync_stable_window : ℕ
watcher_sync_stable_window = 250_000_000

-- `WithAuthAPIBaseURL` and `withWatcherSyncTiming`.
pub data ServiceOption : Type 0 where
  with_auth_api_base_url : Bytes → ServiceOption
  with_watcher_sync_timing : ℕ → ℕ → ℕ → ServiceOption

unfoldable pub apply_option : Option ServiceOption → Settings → Settings
apply_option none service = service
apply_option (some (with_auth_api_base_url url)) service = record service { base_url = trim url }
apply_option (some (with_watcher_sync_timing timeout interval window)) service = record service {
  timeout = timeout;
  poll_interval = interval;
  stable_window = window;
}

unfoldable pub apply_options : List (Option ServiceOption) → Settings → Settings
apply_options [] service = service
apply_options (o ∷ os) service = apply_options os (apply_option o service)

-- `NewService`, with the variable `CODEX_AUTHAPI_BASE_URL` of the environment; an option that is nil
-- is `none`.
unfoldable pub new_service : Bytes → Bytes → List (Option ServiceOption) → Settings
new_service base_url version options = apply_options options (record {
  version = safe_version version;
  base_url = trim base_url;
  timeout = default_timeout;
  poll_interval = default_poll_interval;
  stable_window = watcher_sync_stable_window;
})

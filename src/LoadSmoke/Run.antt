-- ===== src/LoadSmoke/Run.antt =====
-- `run` (cmd/cpa-load-smoke/main.go): a host is started on temporary files with the plugin's library,
-- and polled. The calls of the packages `os`, `os/exec`, `net` and `filepath` are parameters, and so is
-- what the rounds of the two polling loops meet.
use codex_pat.Base.{
  Bool, Bytes, List, Option, [], codes, if◌then◌else◌, length, none, not, same, some, ℕ, ◌++◌, ◌==◌,
  ◌||◌, ◌∷◌,
}
use codex_pat.Errors.{Result, err, ok, plain, wrapped}
use codex_pat.Exec.{Exec, attempt, lift, or_raise, pure, raise, refuse_if, ◌>>=◌, ◌>>◌}
use codex_pat.FileName.{last}
use codex_pat.Json.{Json}
use codex_pat.LoadSmoke.{
  ListedPlugin, Round, library_extension, valid_version, wait_for_empty_status_host_callback,
  wait_for_registration,
}
use codex_pat.Service.Save.{ended}
use codex_pat.Text.Digits.{decimal}
use codex_pat.Text.Trim.{trim}

-- `options`.
pub record Options : Type 0 where
  pub cpa_binary : Bytes
  pub plugin : Bytes
  pub version : Bytes

-- What the tool calls. An open file, and a listener, is a number.
pub record Shell : Type 1 where
  pub World : Type 0
  pub goos : Bytes
  -- `filepath.Abs`, `filepath.Join`, `strconv.Quote`
  pub abs : Bytes → Exec World Bytes
  pub join : Bytes → Bytes → Bytes
  pub quote : Bytes → Bytes
  -- `os.Stat`: whether the file is regular, and its size; `os.ReadDir`: the names
  pub stat : Bytes → Exec World (Bool × ℕ)
  pub read_dir : Bytes → Exec World (List Bytes)
  pub mkdir_temp : Bytes → Exec World Bytes
  pub remove_all : Bytes → Exec World (Unit {0})
  pub mkdir_all : Bytes → ℕ → Exec World (Unit {0})
  pub write_file : Bytes → Bytes → ℕ → Exec World (Unit {0})
  pub read_file : Bytes → Exec World Bytes
  -- `os.Open`, `os.OpenFile` of a file that must be new, `os.Create`
  pub open_file : Bytes → Exec World ℕ
  pub open_new : Bytes → ℕ → Exec World ℕ
  pub create : Bytes → Exec World ℕ
  pub copy : ℕ → ℕ → Exec World (Unit {0})
  pub sync : ℕ → Exec World (Unit {0})
  pub close : ℕ → Exec World (Unit {0})
  -- `net.Listen` on a free port of the local host, and the port
  pub listen : Exec World ℕ
  pub port_of : ℕ → ℕ
  -- the command: the binary, the arguments, the directory and the log; whether it has not ended; and
  -- the signal, the wait for its end within some nanoseconds, the kill, and the wait for its end
  pub start : Bytes → List Bytes → Bytes → ℕ → Exec World (Unit {0})
  pub is_running : World → Bool
  pub interrupt : World → World
  pub await_exit : ℕ → World → Bool × World
  pub kill : World → World
  pub await_end : World → World
  -- what the rounds of a loop meet that asks for a URL
  pub poll : Bytes → World → List Round × World
  pub read_plugins : Bytes → Option (List ListedPlugin)
  pub read_status : Bytes → Option (Option (List Json))

abbrev pub management_key : Bytes
management_key = codes "codex-pat-load-smoke-management-key"

-- A deferred call.
unfoldable pub finally : {S A : Type 0} → (S → S) → Exec S A → Exec S A
finally last m w = let (r, w') = m w in (r, last w')

-- The result of a loop; a script that ends before the loop is no answer of the host.
abbrev polled : Option (Result (Unit {0})) → Result (Unit {0})
polled none = err (plain "no more rounds")
polled (some r) = r

module _ (s : Shell) where
  -- `requireFile`.
  unfoldable pub require_file : Bytes → Exec s.World (Unit {0})
  require_file path = s.stat path >>= λ info.
      refuse_if (not (info.0) || info.1 == 0) (plain "must be a non-empty regular file")

  -- `requireEmptyDirectory`.
  unfoldable pub require_empty_directory : Bytes → Exec s.World (Unit {0})
  require_empty_directory path = s.read_dir path >>= λ entries.
      refuse_if (not (length entries == 0)) (plain "must remain empty")

  abbrev pub close_file : ℕ → s.World → s.World
  close_file file w = (s.close file w).1

  abbrev copied : Result (Unit {0}) → Result (Unit {0}) → Result (Unit {0})
  copied (err e) closed = err (wrapped "copy plugin library" e)
  copied (ok _) (err e) = err (wrapped "close plugin library" e)
  copied (ok _) (ok _) = ok tt

  abbrev pub copy_to : Bytes → ℕ → ℕ → Exec s.World (Unit {0})
  copy_to destination mode input = do
    output ← or_raise (wrapped "create smoke plugin library") (s.open_new destination mode)
    written ← attempt (s.copy output input)
    closed ← attempt (s.close output)
    lift (copied written closed)

  -- `copyFile`.
  unfoldable pub copy_file : Bytes → Bytes → ℕ → Exec s.World (Unit {0})
  copy_file source destination mode =
      or_raise (wrapped "open plugin library") (s.open_file source) >>= λ input.
      finally (close_file input) (copy_to destination mode input)

  -- `freePort`.
  unfoldable pub free_port : Exec s.World ℕ
  free_port = or_raise (wrapped "allocate CPA port") s.listen >>= λ listener.
      finally (close_file listener) (pure (s.port_of listener))

  -- The configuration of the host.
  abbrev config_text : ℕ → Bytes → Bytes → Bytes → Bytes
  config_text port auth_dir plugin_dir version =
      codes "host: \"127.0.0.1\"\nport: "
      ++ decimal 5 port (
          codes "\nremote-management:\n  allow-remote: true\n  secret-key: "
          ++ (s.quote management_key
              ++ (codes
                    "\n  disable-control-panel: true\n  disable-auto-update-panel: true\nauth-dir: "
                  ++ (s.quote auth_dir
                      ++ (codes
                            "\ndebug: false\nlogging-to-file: false\nplugins:\n  enabled: true\n  dir: "
                          ++ (s.quote plugin_dir
                              ++ (codes
                                    "\n  configs:\n    codex-pat:\n      enabled: true\n      store:\n        version: "
                                  ++ (s.quote version ++ codes "\n"))))))))

  abbrev pub poll_for : (List Round → Option (Result (Unit {0}))) → Bytes → Exec s.World (Unit {0})
  poll_for loop url w = let (rounds, w') = s.poll url w in (polled (loop rounds), w')

  abbrev pub show_logs : Bytes → ℕ → Result (Unit {0}) → Exec s.World (Unit {0})
  show_logs log_path log_file (ok _) = pure tt
  show_logs log_path log_file (err e) = do
    synced ← attempt (s.sync log_file)
    logs ← attempt (s.read_file log_path)
    raise (wrapped "CPA logs" e)

  -- `if err = ...; err != nil` with the log of the host in the error.
  unfoldable pub or_logs : Bytes → ℕ → Exec s.World (Unit {0}) → Exec s.World (Unit {0})
  or_logs log_path log_file m = attempt m >>= show_logs log_path log_file

  -- The checks of a host that runs.
  unfoldable pub check_host : Bytes → Bytes → Bytes → Bytes → ℕ → Exec s.World (Unit {0})
  check_host base_url version auth_dir log_path log_file = do
    or_logs log_path log_file (
        poll_for (wait_for_registration s.read_plugins version)
          (base_url ++ codes "/v0/management/plugins"))
    or_raise (wrapped "auth directory before host callback") (require_empty_directory auth_dir)
    or_logs log_path log_file (
        poll_for (wait_for_empty_status_host_callback s.read_status)
          (base_url ++ codes "/v0/management/plugins/codex-pat/status"))
    or_raise (wrapped "auth directory after host callback") (require_empty_directory auth_dir)

  -- The deferred end of the host, and of its log.
  unfoldable pub stop_host : ℕ → s.World → s.World
  stop_host log_file w = close_file log_file (
      if not (s.is_running w)
      then w
      else (let (ended, w') = s.await_exit 2_000_000_000 (s.interrupt w) in
          if ended then w' else s.await_end (s.kill w')))

  abbrev pub started : ℕ → Exec s.World (Unit {0}) → Result (Unit {0}) → Exec s.World (Unit {0})
  started log_file checks (err e) w = (err (wrapped "start CPA" e), close_file log_file w)
  started log_file checks (ok _) w = finally (stop_host log_file) checks w

  -- `run` from the making of the log.
  unfoldable pub run_host : Bytes → Bytes → Bytes → Bytes → ℕ → Exec s.World (Unit {0})
  run_host temp cpa_binary version auth_dir port =
      let log_path = s.join temp (codes "cpa.log") in
      or_raise (wrapped "create CPA log") (s.create log_path) >>= λ log_file.
      attempt (
        s.start cpa_binary
          (codes "-config" ∷ s.join temp (codes "config.yaml") ∷ codes "-local-model" ∷ []) temp
          log_file)
      >>= started log_file (
          check_host (codes "http://127.0.0.1:" ++ decimal 5 port []) version auth_dir log_path
            log_file)

  abbrev extension_or_error : Option Bytes → Result Bytes
  extension_or_error none = err (plain "unsupported smoke platform")
  extension_or_error (some extension) = ok extension

  -- `run` behind the making of the temporary directory.
  unfoldable pub run_in : Bytes → Bytes → Bytes → Bytes → Exec s.World (Unit {0})
  run_in cpa_binary plugin_source version temp = do
    let auth_dir = s.join temp (codes "auth")
    let plugin_dir = s.join temp (codes "plugins")
    or_raise (wrapped "create auth directory") (s.mkdir_all auth_dir 448)
    or_raise (wrapped "create plugin directory") (s.mkdir_all plugin_dir 493)
    extension ← lift (extension_or_error (library_extension s.goos))
    copy_file plugin_source (s.join plugin_dir (codes "codex-pat-v" ++ (version ++ extension))) 493
    port ← free_port
    or_raise (wrapped "write CPA config") (
        s.write_file (s.join temp (codes "config.yaml"))
          (config_text port auth_dir plugin_dir version) 384)
    run_host temp cpa_binary version auth_dir port

  -- The deferred removal of the temporary directory, whose error is dropped.
  abbrev pub remove_temp : Bytes → s.World → s.World
  remove_temp temp w = (s.remove_all temp w).1

  -- `run`.
  unfoldable pub run : Options → Exec s.World (Unit {0})
  run settings = do
    refuse_if (same (trim settings.cpa_binary) [] || same (trim settings.plugin) [])
        (plain "-cpa and -plugin are required")
    refuse_if (not (valid_version settings.version)) (plain "-version must be dotted numeric x.y.z")
    cpa_binary ← or_raise (wrapped "resolve CPA path") (s.abs settings.cpa_binary)
    plugin_source ← or_raise (wrapped "resolve plugin path") (s.abs settings.plugin)
    or_raise (wrapped "CPA binary") (require_file cpa_binary)
    or_raise (wrapped "plugin library") (require_file plugin_source)
    temp ←
        or_raise (wrapped "create temp directory")
          (s.mkdir_temp (codes "codex-pat-cpa-load-smoke-"))
    finally (remove_temp temp) (run_in cpa_binary plugin_source settings.version temp)

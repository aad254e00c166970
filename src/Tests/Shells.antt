-- ===== src/Tests/Shells.antt =====
-- A run of the load test on a machine that has one name for a temporary directory, with a host that
-- lists the plugin at once and ends only when it is killed.
use codex_pat.Base.{
  Bool, Bytes, [], codes, false, not, refl, same, some, true, ◌&&◌, ◌++◌, ◌||◌, ◌∷◌, ◌≡◌, ◌⊎◌,
}
use codex_pat.Credential.AuthData.{is_digit}
use codex_pat.Errors.{Result, err, ok, plain}
use codex_pat.Exec.{attempt, lift, or_raise, pure, raise, refuse_if, ◌>>=◌}
use codex_pat.Exec.Runs.{After}
use codex_pat.LoadSmoke.{
  has_expected_menu, has_expected_metadata, is_expected, is_number, library_extension, responded,
  split_from, valid_version, validate_empty_status_response, wait_for_empty_status_host_callback,
  wait_for_registration,
}
use codex_pat.LoadSmoke.Cleanup.{IsShell, LeftBehind, Makes, SameTemps, Stays}
use codex_pat.LoadSmoke.Removed.{run_cleans}
use codex_pat.LoadSmoke.Run.{
  Options, Shell, check_host, copy_file, finally, free_port, or_logs, require_empty_directory,
  require_file, run, run_host, run_in, stop_host,
}
use codex_pat.Tests.Loads.{listed}
use codex_pat.Text.Digits.{decimal}
use codex_pat.Text.Trim.{trim}

pub record Room : Type 0 where
  pub temps : Bytes → Bool
  pub running : Bool

abbrev temp_name : Bytes
temp_name = codes "t"

abbrev made_temp : Room → Bool → Result Bytes × Room
made_temp w true = (err (plain "exists"), w)
made_temp w false = (ok temp_name, record w { temps = λ q. same q temp_name || w.temps q })

abbrev shell : Shell
shell = record {
  World = Room;
  goos = codes "linux";
  abs = λ path w. (ok path, w);
  join = λ dir name. dir ++ (codes "/" ++ name);
  quote = λ s. s;
  stat = λ path w. (ok (true, 1), w);
  read_dir = λ path w. (ok [], w);
  mkdir_temp = λ prefix w. made_temp w (w.temps temp_name);
  remove_all = λ p w. (ok tt, record w { temps = λ q. not (same q p) && w.temps q });
  mkdir_all = λ path mode w. (ok tt, w);
  write_file = λ path raw mode w. (ok tt, w);
  read_file = λ path w. (ok [], w);
  open_file = λ path w. (ok 1, w);
  open_new = λ path mode w. (ok 2, w);
  create = λ path w. (ok 3, w);
  copy = λ to from w. (ok tt, w);
  sync = λ f w. (ok tt, w);
  close = λ f w. (ok tt, w);
  listen = λ w. (ok 4, w);
  port_of = λ listener. 8080;
  start = λ binary arguments dir f w. (ok tt, record w { running = true });
  is_running = λ w. w.running;
  interrupt = λ w. w;
  await_exit = λ n w. (false, w);
  kill = λ w. w;
  await_end = λ w. record w { running = false };
  poll = λ url w. (responded true 200 (codes "p") ∷ [], w);
  read_plugins = λ body. some (listed ∷ []);
  read_status = λ body. some (some []);
}

abbrev temps_of : Room → Bytes → Bool
temps_of w = w.temps

made_temp-After :
    (w : Room) (b : Bool)
    → w.temps temp_name ≡ b
    → After (Makes shell temps_of w) (Stays shell temps_of w) (made_temp w b)
made_temp-After w true e = ((λ q. refl), λ r. r)
made_temp-After w false e = (e, (λ q. refl), λ r. r)

shell-IsShell : IsShell shell temps_of
shell-IsShell = record {
  abs = λ path w. ((λ q. refl), λ r. r);
  stat = λ path w. ((λ q. refl), λ r. r);
  read_dir = λ path w. ((λ q. refl), λ r. r);
  mkdir_all = λ path mode w. ((λ q. refl), λ r. r);
  write_file = λ path raw mode w. ((λ q. refl), λ r. r);
  read_file = λ path w. ((λ q. refl), λ r. r);
  open_file = λ path w. ((λ q. refl), λ r. r);
  open_new = λ path mode w. ((λ q. refl), λ r. r);
  create = λ path w. ((λ q. refl), λ r. r);
  copy = λ to from w. ((λ q. refl), λ r. r);
  sync = λ f w. ((λ q. refl), λ r. r);
  close = λ f w. ((λ q. refl), λ r. r);
  listen = λ w. ((λ q. refl), λ r. r);
  poll = λ url w. ((λ q. refl), λ r. r);
  mkdir_temp = λ prefix w. made_temp-After w (w.temps temp_name) refl;
  remove_all = λ p w. ((λ q. refl), λ r. r);
  start = λ binary arguments dir f w q. refl;
  interrupt = λ w q. refl;
  await_exit = λ n w. ((λ q. refl), λ e. cc);
  kill = λ w q. refl;
  await_end = λ w. ((λ q. refl), refl);
}

abbrev settings : Options
settings = record { cpa_binary = codes "cpa"; plugin = codes "plugin.so"; version = codes "1.2.3" }

abbrev empty_room : Room
empty_room = record { temps = λ q. same q (codes "other"); running = false }

-- The run succeeds.
smoke_passes : (run shell settings empty_room).0 ≡ ok tt
unfolding run ◌>>=◌ refuse_if same trim valid_version split_from is_number is_digit or_raise
    require_file finally run_in lift library_extension copy_file attempt pure raise check_host
    free_port or_logs require_empty_directory run_host stop_host has_expected_menu
    has_expected_metadata is_expected validate_empty_status_response
    wait_for_empty_status_host_callback wait_for_registration decimal
smoke_passes = refl

run_cleans_example :
    (SameTemps shell temps_of empty_room (run shell settings empty_room).1
      ⊎ LeftBehind shell temps_of empty_room (run shell settings empty_room).1)
    × ((run shell settings empty_room).1.running ≡ false)
run_cleans_example = run_cleans shell temps_of shell-IsShell settings empty_room refl

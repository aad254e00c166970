-- ===== src/Wiring.antt =====
-- The plugin put together (cmd/codex-pat/wiring.go): the service and the handlers over a client of
-- `rawHostCall`, behind the dispatcher, as the process starts them.
pub mod Quiet
pub mod Contract
pub mod Answers
pub mod Serves
use codex_pat.Abi.HostCall.{answer}
use codex_pat.Abi.Memory.{HostApi, Memory}
use codex_pat.Abi.Process.{Program, replied}
use codex_pat.Base.{Bool, Bytes, Option, [], false, if◌then◌else◌, none, some, true, ℕ}
use codex_pat.Errors.{Result, err, ok}
use codex_pat.Exec.{Exec}
use codex_pat.Files.{Disk, replace_file_0600, replace_file_0600_windows}
use codex_pat.Host.{FileInfo, Host}
use codex_pat.HostRpc.Client.{Client, Sdk, auth_get, auth_get_runtime, auth_list, auth_save}
use codex_pat.HostRpc.Client.Asks.{native_client}
use codex_pat.HostRpc.Client.Limited.{host_http_do_limited}
use codex_pat.HostRpc.Stream.{reply_of}
use codex_pat.LoadSmoke.Run.{run}
use codex_pat.Management.{Response}
use codex_pat.Management.Assets.{ManagementRegistration, Page, register}
use codex_pat.Management.Encoding.{to_page}
use codex_pat.Management.Handler.{handle}
use codex_pat.Platform.{Platform}
use codex_pat.Plugin.{Attempted, ManagementRequest, PluginDispatcher, new_plugin_dispatcher}
use codex_pat.Plugin.Dispatch.{dispatch}
use codex_pat.Plugin.Envelope.{Messages, error_response}
use codex_pat.Service.Options.{new_service}
use codex_pat.Service.Save.{out_of_fuel}
use codex_pat.Whoami.{Reply}

-- The machine below the plugin, apart from the C memory: the disk, which is a part of the world, with
-- `os.Lstat` and `os.ReadFile`; the clock; a pause; and whether the deadline of a validation is over.
pub record Machine (W : Type 0) : Type 1 where
  pub disk : Disk
  pub is_windows : Bool
  pub disk_of : W → disk.World
  pub with_disk : disk.World → W → W
  pub lstat : Bytes → Exec disk.World FileInfo
  pub read_file : Bytes → Exec disk.World Bytes
  pub time_now : W → ℕ
  pub pause : ℕ → W → W
  pub is_expired : W → Bool

-- What the build and the environment set: `version`, the embedded files, and
-- `CODEX_AUTHAPI_BASE_URL`.
pub record Setup : Type 0 where
  pub version : Bytes
  pub embedded : Bytes → Option Bytes
  pub base_url : Bytes

-- The call of the service, which has a reply in every case.
abbrev or_out_of_fuel : {W : Type 0} → Option Reply × W → Reply × W
or_out_of_fuel (none, w) = (reply_of 0 [] out_of_fuel, w)
or_out_of_fuel (some r, w) = (r, w)

module _ (go : Platform) (sdk : Sdk) (m : Memory) (machine : Machine m.World) where
  abbrev pub on_disk : {A : Type 0} → Exec machine.disk.World A → Exec m.World A
  on_disk run w = let (r, d) = run (machine.disk_of w) in (r, machine.with_disk d w)

  -- `replaceFile0600` of the system that is built for.
  abbrev pub replace_file : Bytes → Bytes → Exec machine.disk.World (Unit {0})
  replace_file path raw =
      if machine.is_windows
      then replace_file_0600_windows machine.disk path raw
      else replace_file_0600 machine.disk path raw

  -- A client whose context is `context.Background`.
  abbrev pub background_client : Option (HostApi m) → Client m.World
  background_client api = native_client go sdk m api (λ w. false)

  -- A client whose context is that of `Validate`.
  abbrev pub validation_client : Option (HostApi m) → Client m.World
  validation_client api = native_client go sdk m api machine.is_expired

  -- The client as the service and the handlers use it, for one callback identifier. The client has
  -- `AuthGetRuntime`, so it is a `runtimeHost`.
  abbrev pub native_host : ℕ → Option (HostApi m) → Bytes → Host
  native_host fuel api id = record {
    World = m.World;
    http_do_limited = λ r limit w.
        or_out_of_fuel (host_http_do_limited go sdk (validation_client api) fuel id r limit w);
    auth_list = auth_list go sdk (background_client api) id;
    auth_get = auth_get go sdk (background_client api) id;
    auth_save = auth_save go sdk (background_client api) id;
    has_runtime = true;
    auth_get_runtime = auth_get_runtime go sdk (background_client api) id;
    lstat = λ path. on_disk (machine.lstat path);
    read_file = λ path. on_disk (machine.read_file path);
    replace_file = λ path raw. on_disk (replace_file path raw);
    time_now = machine.time_now;
    wait = λ n w. (ok tt, machine.pause n w);
  }

  abbrev page_of_answer : Setup → Result Response → Result Page
  page_of_answer setup (err e) = err e
  page_of_answer setup (ok r) = ok (to_page go setup.embedded r)

  module _ (setup : Setup) (fuel : ℕ) where
    -- `management.New`, as the dispatcher calls it; its calls return no error.
    unfoldable pub native_handle : Option (HostApi m) → ManagementRequest → Attempted m.World Page
    native_handle api r w =
        let (answer, w') =
          handle go (native_host fuel api r.host_callback_id)
            (new_service setup.base_url setup.version []) fuel r.method r.path r.body w in
        (some (page_of_answer setup answer), w')

    -- `newDispatcher`.
    unfoldable pub new_dispatcher :
        Option (HostApi m) → PluginDispatcher m.World ManagementRegistration Page
    new_dispatcher api =
        new_plugin_dispatcher setup.version
          (some (record { register = λ w. (some (ok register), w); handle = native_handle api }))

    -- The process's program. A call finds the host's table that is stored when it is made.
    unfoldable pub codex_program : ℕ → Messages ManagementRegistration Page → Program m
    codex_program abi_version messages = record {
      abi_version = abi_version;
      error_response = error_response messages;
      new_dispatcher = record {
        dispatch = λ api method raw w.
            let (b, w') = dispatch go messages (new_dispatcher api) method raw w in (replied b, w');
      };
    }

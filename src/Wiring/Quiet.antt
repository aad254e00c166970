-- ===== src/Wiring/Quiet.antt =====
-- The parts of the plugin, over the native bridge, hold no other blocks of the C memory.
use codex_pat.Abi.HostCall.{raw_host_call}
use codex_pat.Abi.HostCall.Balance.{IsBalanced}
use codex_pat.Abi.Memory.{HoldsSame, HoldsSame-trans, HostApi, Memory}
use codex_pat.Base.{Bytes, Option, [], false, none, refl, some, ℕ}
use codex_pat.Exec.{Exec}
use codex_pat.Exec.Runs.{Runs-kept}
use codex_pat.HostRpc.Client.{Sdk}
use codex_pat.HostRpc.Client.Balance.{
  auth_get-IsBalanced, auth_get_runtime-IsBalanced, auth_list-IsBalanced, auth_save-IsBalanced,
  balanced-IsQuiet,
}
use codex_pat.HostRpc.Client.Limited.Balance.{host_http_do_limited-IsBalanced}
use codex_pat.Management.Assets.{ManagementRegistration, Page}
use codex_pat.Management.Handler.Quiet.{quiet-handle}
use codex_pat.Platform.{Platform}
use codex_pat.Plugin.{ManagementRequest, new_plugin_dispatcher}
use codex_pat.Plugin.Dispatch.{dispatch}
use codex_pat.Plugin.Envelope.{Messages}
use codex_pat.Plugin.Keeps.{dispatch-keeps}
use codex_pat.Service.Options.{new_service}
use codex_pat.Service.Quiet.{HostKeeps}
use codex_pat.Whoami.{Reply}
use codex_pat.Wiring.{
  Machine, Setup, native_handle, native_host, new_dispatcher, on_disk, or_out_of_fuel, replace_file,
}

-- The disk and the clock are apart from the C memory: what is done to them allocates and frees none
-- of its blocks.
pub record IsApart (m : Memory) (machine : Machine m.World) : Type 0 where
  pub disk_apart : (d : machine.disk.World) (w : m.World) → HoldsSame m w (machine.with_disk d w)
  pub pause_apart : (n : ℕ) (w : m.World) → HoldsSame m w (machine.pause n w)

module _ (go : Platform) (sdk : Sdk) (m : Memory) (machine : Machine m.World)
    (apart : IsApart m machine) (api : Option (HostApi m))
    (balanced : (method request : Bytes) → IsBalanced m (raw_host_call m api method request)) where
  on_disk-IsBalanced :
      {A : Type 0} (run : Exec machine.disk.World A) → IsBalanced m (on_disk go sdk m machine run)
  on_disk-IsBalanced run = record { holds = λ w. apart.disk_apart _ w }

  or_out_of_fuel-holds :
      (w : m.World) (p : Option Reply × m.World)
      → HoldsSame m w p.1
      → HoldsSame m w (or_out_of_fuel p).1
  or_out_of_fuel-holds w (none, v) s = s
  or_out_of_fuel-holds w (some r, v) s = s

  module _ (fuel : ℕ) (id : Bytes) (w : m.World) where
    -- Every call of the client and the machine keeps the blocks that are held.
    native_host-HostKeeps : HostKeeps (native_host go sdk m machine fuel api id) (HoldsSame m w)
    native_host-HostKeeps = record {
      reads = record {
        auth_list =
            balanced-IsQuiet m w _ (auth_list-IsBalanced go sdk m api (λ w. false) balanced id);
        auth_get = λ index.
            balanced-IsQuiet m w _
              (auth_get-IsBalanced go sdk m api (λ w. false) balanced id index);
        auth_get_runtime = λ index.
            balanced-IsQuiet m w _
              (auth_get_runtime-IsBalanced go sdk m api (λ w. false) balanced id index);
        lstat = λ path. balanced-IsQuiet m w _ (on_disk-IsBalanced (machine.lstat path));
        read_file = λ path. balanced-IsQuiet m w _ (on_disk-IsBalanced (machine.read_file path));
        wait = λ n. record { from = λ v s. HoldsSame-trans m s (apart.pause_apart n v) };
      };
      http = λ r limit v s. or_out_of_fuel-holds w _ (
          HoldsSame-trans m s (
            (host_http_do_limited-IsBalanced go sdk m api machine.is_expired balanced fuel id r
                limit).holds
              v));
      auth_save = λ name text.
          balanced-IsQuiet m w _
            (auth_save-IsBalanced go sdk m api (λ w. false) balanced id name text);
      replace_file = λ path text.
          balanced-IsQuiet m w _ (on_disk-IsBalanced (replace_file go sdk m machine path text));
    }

  module _ (setup : Setup) (fuel : ℕ) where
    native_handle-IsBalanced :
        (r : ManagementRequest) → IsBalanced m (native_handle go sdk m machine setup fuel api r)
    unfolding native_handle
    native_handle-IsBalanced r = record {
      holds = λ w.
          Runs-kept _
            (quiet-handle go (native_host go sdk m machine fuel api r.host_callback_id)
              (new_service setup.base_url setup.version []) fuel (HoldsSame m w)
              (native_host-HostKeeps fuel r.host_callback_id w) r.method r.path r.body)
            w λ q. refl;
    }

    pub dispatch-IsBalanced :
        (messages : Messages ManagementRegistration Page) (method raw : Bytes)
        → IsBalanced m
            (dispatch go messages (new_dispatcher go sdk m machine setup fuel api) method raw)
    unfolding new_dispatcher new_plugin_dispatcher
    dispatch-IsBalanced messages method raw = record {
      holds = λ w.
          dispatch-keeps go messages (new_dispatcher go sdk m machine setup fuel api)
            (HoldsSame m w)
            (record {
              register = λ v s. s;
              handle = λ r v s. HoldsSame-trans m s ((native_handle-IsBalanced r).holds v);
            })
            method raw w λ q. refl;
    }

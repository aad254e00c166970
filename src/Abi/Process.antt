-- ===== src/Abi/Process.antt =====
-- The exports of the plugin (cmd/codex-pat/abi.go) and the dispatcher that they start
-- (cmd/codex-pat/main.go), with the two variables they share: `hostState.api` and
-- `application.dispatcher`. The locks are left out: an export runs as one step.
pub mod Replies
pub mod Steps
use codex_pat.Abi.HostCall.{size_fits_go_bytes}
use codex_pat.Abi.Memory.{Buffer, HostApi, Memory, empty_buffer, null_pointer}
use codex_pat.Base.{
  Bool, Bytes, Option, String, [], false, if◌then◌else◌, length, ltb, none, not, some, true, ℕ,
  ◌&&◌, ◌==◌, ◌||◌, ◌∷◌,
}

-- What `Dispatcher.Dispatch` does: it returns, or panics.
pub data Reply : Type 0 where
  replied : Bytes → Reply
  panicked : Reply

-- A dispatcher over a client of `rawHostCall`, which finds the table that is stored.
pub record Dispatcher (m : Memory) : Type 0 where
  pub dispatch : Option (HostApi m) → Bytes → Bytes → m.World → Reply × m.World

pub record Process (m : Memory) : Type 0 where
  pub api : Option (HostApi m)
  pub dispatcher : Option (Dispatcher m)
  pub world : m.World

-- The functions that the exports table may point to.
pub data Export : Type 0 where
  export_call export_free export_shutdown : Export

-- `cliproxy_plugin_api`.
pub record PluginApi : Type 0 where
  pub abi_version : ℕ
  pub call : Option Export
  pub free_buffer : Option Export
  pub shutdown : Option Export

-- `pluginabi.ABIVersion`, `plugin.ErrorResponse` and `newDispatcher` with the build's version.
pub record Program (m : Memory) : Type 0 where
  pub abi_version : ℕ
  pub error_response : String → String → Bytes
  pub new_dispatcher : Dispatcher m

module _ (m : Memory) (program : Program m) where
  abbrev pub has_functions :
      Option (ℕ → ℕ → ℕ → m.World → (ℕ × Buffer) × m.World)
      → Option (ℕ → ℕ → m.World → m.World)
      → Bool
  has_functions (some f) (some g) = true
  has_functions _ _ = false

  -- `hostAPICompatible`.
  unfoldable pub host_api_compatible : Option (HostApi m) → Bool
  host_api_compatible none = false
  host_api_compatible (some host) =
      host.abi_version == program.abi_version && has_functions host.call host.free_buffer

  -- `storeHostAPI`, `clearHostAPI`.
  abbrev pub store_host_api : Option (HostApi m) → Process m → Process m
  store_host_api host p = record p { api = host }

  abbrev pub clear_host_api : Process m → Process m
  clear_host_api p = record p { api = none }

  -- `cliproxy_plugin_init`: the code, and the exports table that the host has passed. Nothing in it
  -- panics, so its recovery is left out.
  unfoldable pub plugin_init :
      Option (HostApi m) → Option PluginApi → Process m → (ℕ × Option PluginApi) × Process m
  plugin_init host none p = ((1, none), p)
  plugin_init host (some exports) p =
      if not (host_api_compatible host) then ((1, some exports), p) else (
        (
          0,
          some (record {
            abi_version = program.abi_version;
            call = some export_call;
            free_buffer = some export_free;
            shutdown = some export_shutdown;
          }),
        ),
        store_host_api host p,
      )

  -- The dispatcher there is, or a new one.
  abbrev pub started : Option (Dispatcher m) → Dispatcher m
  started none = program.new_dispatcher
  started (some d) = d

  -- `initializePlugin`.
  unfoldable pub initialize_plugin : Process m → Process m
  initialize_plugin p = record p { dispatcher = some (started p.dispatcher) }

  abbrev pub dispatch_started :
      Bytes → Bytes → Process m → Option (Dispatcher m) → Reply × Process m
  dispatch_started method request p none =
      (replied (program.error_response "plugin_unavailable" "plugin is unavailable"), p)
  dispatch_started method request p (some d) =
      let (reply, w) = d.dispatch p.api method request p.world in (reply, record p { world = w })

  -- `dispatchPlugin`.
  unfoldable pub dispatch_plugin : Bytes → Bytes → Process m → Reply × Process m
  dispatch_plugin method request p =
      let p' = initialize_plugin p in dispatch_started method request p' p'.dispatcher

  -- `shutdownPlugin`.
  unfoldable pub shutdown_plugin : Process m → Process m
  shutdown_plugin p = record p { dispatcher = none }

  -- `writeResponse`, for a response that is there.
  unfoldable pub write_response : Buffer → Bytes → m.World → (Bool × Buffer) × m.World
  write_response response [] w = ((false, response), w)
  write_response response (c ∷ s) w =
      let (ptr, w') = m.copy_bytes (c ∷ s) w in
      if ptr == null_pointer
      then ((false, response), w')
      else ((true, record { ptr = ptr; len = length (c ∷ s) }), w')

  -- `if !writeResponse(...) { return 1 }; return 0`.
  unfoldable pub respond : Buffer → Bytes → Process m → (ℕ × Buffer) × Process m
  respond response raw p =
      let ((written, b), w) = write_response response raw p.world in
      ((if written then 0 else 1, b), record p { world = w })

  -- The deferred recovery of `cliproxyPluginCall`.
  unfoldable pub recover_call : Buffer → Process m → (ℕ × Buffer) × Process m
  recover_call response p =
      let panic_response = program.error_response "plugin_panic" "plugin request failed" in
      if response.ptr == null_pointer
      then respond response panic_response p
      else respond empty_buffer panic_response (record p { world = m.release response.ptr p.world })

  abbrev pub finish_call : Reply × Process m → (ℕ × Buffer) × Process m
  finish_call (replied raw, p) = respond empty_buffer raw p
  finish_call (panicked, p) = recover_call empty_buffer p

  -- `cliproxyPluginCall` where there is a response to fill, which is emptied first.
  unfoldable pub answer_call : ℕ → ℕ → ℕ → Process m → (ℕ × Buffer) × Process m
  answer_call method request len p =
      if method == null_pointer
      then respond empty_buffer
          (program.error_response "invalid_method" "plugin method is required") p
      else if ltb 0 len && (request == null_pointer || not (size_fits_go_bytes len))
      then respond empty_buffer
          (program.error_response "invalid_request" "plugin request is invalid") p
      else finish_call (
          dispatch_plugin (m.text_at p.world method)
            (if ltb 0 len then m.bytes_at p.world request len else []) p)

  -- `cliproxyPluginCall`: the code and the response.
  unfoldable pub plugin_call :
      ℕ → ℕ → ℕ → Option Buffer → Process m → (ℕ × Option Buffer) × Process m
  plugin_call method request len none p = ((1, none), p)
  plugin_call method request len (some response) p =
      let ((code, b), p') = answer_call method request len p in ((code, some b), p')

  -- `cliproxyPluginFree`.
  unfoldable pub plugin_free : ℕ → ℕ → Process m → Process m
  plugin_free ptr len p =
      if ptr == null_pointer then p else record p { world = m.release ptr p.world }

  -- `cliproxyPluginShutdown`.
  unfoldable pub plugin_shutdown : Process m → Process m
  plugin_shutdown p = clear_host_api (shutdown_plugin p)

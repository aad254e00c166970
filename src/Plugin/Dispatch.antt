-- ===== src/Plugin/Dispatch.antt =====
-- `Dispatcher.Dispatch` (internal/plugin/dispatcher.go), with its recovery: a panic of the management
-- is answered with an error.
use codex_pat.Auth.{parse_auth, refresh_auth}
use codex_pat.Base.{Bytes, Option, String, codes, false, none, some}
use codex_pat.Credential.{provider_codex}
use codex_pat.Errors.{Result, err, ok}
use codex_pat.Platform.{Platform}
use codex_pat.Plugin.{
  Answer, Lifecycle, Management, Method, PluginDispatcher, PluginResponse, auth_identifier,
  auth_login_poll, auth_login_start, auth_parse, auth_refresh, decode_request, failure, identified,
  invalid_request, listed, managed, management_handle, management_register, new_registration, other,
  parsed, plugin_reconfigure, plugin_register, refreshed, registered, success, supported,
  unsupported, unsupported_message, validate_lifecycle_request,
}
use codex_pat.Plugin.Envelope.{Messages, encode}

module _ {L A : Type 0} where
  abbrev pub invalid_request_response : String → PluginResponse (Answer L A)
  invalid_request_response message = failure "invalid_request" (codes message) false 400

  abbrev pub lifecycle_response : Bytes → Lifecycle → PluginResponse (Answer L A)
  lifecycle_response version supported = success (registered (new_registration version))
  lifecycle_response version invalid_request =
      invalid_request_response "plugin lifecycle request is invalid"
  lifecycle_response version (unsupported v) =
      failure "unsupported_schema" (unsupported_message v) false 400

  abbrev login_response : PluginResponse (Answer L A)
  login_response =
      failure "unsupported_operation"
        (codes "Codex PAT login is available only through the plugin management API") false 501

  abbrev decoded_response :
      {B : Type 0} → (B → PluginResponse (Answer L A)) → Option B → PluginResponse (Answer L A)
  decoded_response f none = invalid_request_response "request JSON is invalid"
  decoded_response f (some b) = f b

  module _ {W : Type 0} where
    -- What follows a call of the management; `none` is a panic that goes on.
    abbrev pub managed_response :
        {B : Type 0}
        → String
        → String
        → (B → Answer L A)
        → Option (Result B) × W
        → Option (PluginResponse (Answer L A)) × W
    managed_response code message f (none, w) = (none, w)
    managed_response code message f (some (err e), w) =
        (some (failure code (codes message) false 500), w)
    managed_response code message f (some (ok b), w) = (some (success (f b)), w)

    abbrev pub decoded_call :
        {B : Type 0}
        → (B → W → Option (PluginResponse (Answer L A)) × W)
        → Option B
        → W
        → Option (PluginResponse (Answer L A)) × W
    decoded_call f none w = (some (invalid_request_response "request JSON is invalid"), w)
    decoded_call f (some b) w = f b w

    abbrev pub with_management :
        (Management W L A → W → Option (PluginResponse (Answer L A)) × W)
        → Option (Management W L A)
        → W
        → Option (PluginResponse (Answer L A)) × W
    with_management f none w = (
      some (failure "management_unavailable" (codes "plugin management is unavailable") false 503),
      w,
    )
    with_management f (some m) w = f m w

  -- The deferred recovery.
  abbrev recovered : Option (PluginResponse (Answer L A)) → PluginResponse (Answer L A)
  recovered none = failure "plugin_panic" (codes "plugin request failed") false 500
  recovered (some r) = r

module _ (go : Platform) {W L A : Type 0} (messages : Messages L A)
    (d : PluginDispatcher W L A) where
  -- The switch of `Dispatch`; `none` is a panic.
  unfoldable pub dispatch_method : Method → Bytes → W → Option (PluginResponse (Answer L A)) × W
  dispatch_method plugin_register raw w =
      (some (lifecycle_response d.version (validate_lifecycle_request go raw)), w)
  dispatch_method plugin_reconfigure raw w =
      (some (lifecycle_response d.version (validate_lifecycle_request go raw)), w)
  dispatch_method auth_identifier raw w = (some (success (identified provider_codex)), w)
  dispatch_method auth_parse raw w = (
    some (
        decoded_response (λ r. success (parsed (parse_auth go r)))
          (decode_request messages.read_parse_request raw)),
    w,
  )
  dispatch_method auth_login_start raw w = (some login_response, w)
  dispatch_method auth_login_poll raw w = (some login_response, w)
  dispatch_method auth_refresh raw w = (
    some (
        decoded_response (λ r. success (refreshed (refresh_auth go r)))
          (decode_request messages.read_refresh_request raw)),
    w,
  )
  dispatch_method management_register raw w =
      with_management
        (λ m.
          decoded_call
            (λ _ v.
              managed_response "management_registration_failed"
                "plugin management registration failed" listed (m.register v))
            (decode_request messages.read_registration_request raw))
        d.management w
  dispatch_method management_handle raw w =
      with_management
        (λ m.
          decoded_call
            (λ r v.
              managed_response "management_request_failed" "plugin management request failed"
                managed (m.handle r v))
            (decode_request messages.read_management_request raw))
        d.management w
  dispatch_method other raw w =
      (some (failure "unknown_method" (codes "unknown plugin method") false 404), w)

  -- `Dispatch`.
  unfoldable pub dispatch : Bytes → Bytes → W → Bytes × W
  dispatch method raw w =
      let (r, w') = dispatch_method (messages.method_of method) raw w in
      (encode messages (recovered r), w')

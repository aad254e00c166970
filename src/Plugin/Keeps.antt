-- ===== src/Plugin/Keeps.antt =====
-- What the calls of the management keep, `Dispatch` keeps.
use codex_pat.Base.{Bytes, Option, String, none, refl, some, subst, ◌≡◌}
use codex_pat.Errors.{Result, err, ok}
use codex_pat.Platform.{Platform}
use codex_pat.Plugin.{
  Answer, Management, ManagementRequest, Method, PluginDispatcher, auth_identifier, auth_login_poll,
  auth_login_start, auth_parse, auth_refresh, decode_request, listed, managed, management_handle,
  management_register, other, plugin_reconfigure, plugin_register,
}
use codex_pat.Plugin.Dispatch.{
  decoded_call, dispatch, dispatch_method, managed_response, with_management,
}
use codex_pat.Plugin.Envelope.{Messages}

pub record ManagementKeeps {W L A : Type 0} (management : Management W L A) (I : W → Type 0)
    : Type 0 where
  pub register : (w : W) → I w → I (management.register w).1
  pub handle : (r : ManagementRequest) (w : W) → I w → I (management.handle r w).1

abbrev pub AllKeep : {W L A : Type 0} → Option (Management W L A) → (W → Type 0) → Type 0
AllKeep none I = Unit {0}
AllKeep (some management) I = ManagementKeeps management I

module _ (go : Platform) {W L A : Type 0} (messages : Messages L A) (d : PluginDispatcher W L A)
    (I : W → Type 0) where
  managed_response-keeps :
      {B : Type 0} (code message : String) (f : B → Answer L A) (p : Option (Result B) × W)
      → I p.1
      → I (managed_response code message f p).1
  managed_response-keeps code message f (none, w) i = i
  managed_response-keeps code message f (some (err e), w) i = i
  managed_response-keeps code message f (some (ok b), w) i = i

  -- A call of the management for a request that decodes.
  with_management-keeps :
      {B C : Type 0} (code message : String) (f : C → Answer L A)
      (call : Management W L A → B → W → Option (Result C) × W) (request : Option B)
      (o : Option (Management W L A)) (w : W)
      → ((management : Management W L A)
          → o ≡ some management
          → (b : B) → I (call management b w).1)
      → I w
      → I
          (with_management
            (λ management.
              decoded_call (λ b v. managed_response code message f (call management b v)) request)
            o
            w).1
  with_management-keeps code message f call request none w h i = i
  with_management-keeps code message f call none (some management) w h i = i
  with_management-keeps code message f call (some b) (some management) w h i =
      managed_response-keeps code message f (call management b w) (h management refl b)

  module _ (k : AllKeep d.management I) where
    own_keeps :
        (o : Option (Management W L A)) (management : Management W L A)
        → AllKeep o I
        → o ≡ some management
        → ManagementKeeps management I
    own_keeps o management a e = subst (λ x. AllKeep x I) e a

    dispatch_method-keeps :
        (method : Method) (raw : Bytes) (w : W)
        → I w
        → I (dispatch_method go messages d method raw w).1
    unfolding dispatch_method
    dispatch_method-keeps plugin_register raw w i = i
    dispatch_method-keeps plugin_reconfigure raw w i = i
    dispatch_method-keeps auth_identifier raw w i = i
    dispatch_method-keeps auth_parse raw w i = i
    dispatch_method-keeps auth_login_start raw w i = i
    dispatch_method-keeps auth_login_poll raw w i = i
    dispatch_method-keeps auth_refresh raw w i = i
    dispatch_method-keeps management_register raw w i =
        with_management-keeps "management_registration_failed"
          "plugin management registration failed" listed (λ management _. management.register)
          (decode_request messages.read_registration_request raw) d.management w
          (λ management e _. (own_keeps d.management management k e).register w i) i
    dispatch_method-keeps management_handle raw w i =
        with_management-keeps "management_request_failed" "plugin management request failed" managed
          (λ management. management.handle) (decode_request messages.read_management_request raw)
          d.management w (λ management e r. (own_keeps d.management management k e).handle r w i) i
    dispatch_method-keeps other raw w i = i

    -- Whatever is asked, the invariant is kept.
    pub dispatch-keeps :
        (method raw : Bytes) (w : W) → I w → I (dispatch go messages d method raw w).1
    unfolding dispatch
    dispatch-keeps method raw w i = dispatch_method-keeps (messages.method_of method) raw w i

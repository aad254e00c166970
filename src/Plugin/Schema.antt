-- ===== src/Plugin/Schema.antt =====
-- Which hosts the plugin registers with.
use codex_pat.Base.{Bytes, Option, arith, none, refl, some, some_injective, ℕ, ◌↔◌, ◌≡◌, ◌⊎◌}
use codex_pat.Platform.{Platform}
use codex_pat.Plugin.{
  Method, PluginDispatcher, check_version, new_registration, or_empty_object, plugin_reconfigure,
  plugin_register, registered, success, unmarshal_version, validate_lifecycle_request,
}
use codex_pat.Plugin.Dispatch.{dispatch_method, lifecycle_response}
use codex_pat.Plugin.Envelope.{Messages}

module _ (go : Platform) {W L A : Type 0} (messages : Messages L A)
    (d : PluginDispatcher W L A) where
  lifecycle :
      (o : Option ℕ)
      → (some (lifecycle_response {L = L} {A = A} d.version (check_version o))
          ≡ some (success (registered (new_registration d.version))))
        ↔ ((v : ℕ) × (o ≡ some v) × ((v ≡ 2) ⊎ (v ≡ 3)))
  lifecycle none = (λ h. cc, λ h. cc (h.1))
  lifecycle (some v) = (
    λ h. (v, refl, ground arith),
    λ h. let e : v ≡ h.0 = some_injective (h.1) in ground (arith, e, h.2),
  )

  -- A call to register or to reconfigure answers with the registration exactly if its request
  -- decodes to a schema version of 2 or 3.
  pub dispatch_registers :
      (raw : Bytes) (m : Method) (w : W)
      → (m ≡ plugin_register) ⊎ (m ≡ plugin_reconfigure)
      → ((dispatch_method go messages d m raw w).0
          ≡ some (success (registered (new_registration d.version))))
        ↔ ((v : ℕ) × (unmarshal_version go (go.scan (or_empty_object raw)) ≡ some v)
            × ((v ≡ 2) ⊎ (v ≡ 3)))
  unfolding dispatch_method validate_lifecycle_request
  dispatch_registers raw plugin_register w l =
      lifecycle (unmarshal_version go (go.scan (or_empty_object raw)))
  dispatch_registers raw plugin_reconfigure w l =
      lifecycle (unmarshal_version go (go.scan (or_empty_object raw)))
  dispatch_registers raw _ w l = absurd (ground arith)

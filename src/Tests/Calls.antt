-- ===== src/Tests/Calls.antt =====
-- Lifecycle calls at concrete answers.
use codex_pat.Base.{[], codes, if◌then◌else◌, inl, none, refl, same, some, ℕ, ◌↔◌, ◌≡◌, ◌⊎◌}
use codex_pat.Credential.AuthData.{digits_value, is_digit}
use codex_pat.Plugin.{
  PluginDispatcher, new_registration, or_empty_object, plugin_register, registered, success,
  unmarshal_version, validate_lifecycle_request,
}
use codex_pat.Plugin.Dispatch.{dispatch, dispatch_method}
use codex_pat.Plugin.Envelope.{Messages, success_envelope}
use codex_pat.Plugin.Schema.{dispatch_registers}
use codex_pat.Tests.Machine.{machine}
use codex_pat.Text.Case.{equal_fold}
use codex_pat.Text.Digits.{decimal}
use codex_pat.Text.Struct.{decode_struct, find_field}
use codex_pat.Text.Trim.{trim}

-- Messages of one letter, and a dispatcher without a management.
abbrev messages : Messages ℕ ℕ
messages = record {
  method_of = λ s. plugin_register;
  read_parse_request = λ s. none;
  read_refresh_request = λ s. none;
  read_registration_request = λ s. none;
  read_management_request = λ s. none;
  answer_json = λ a. some (codes "a");
  envelope_json = λ e. some (if e.is_ok then codes "y" else codes "n");
}

abbrev bare_dispatcher : PluginDispatcher (Unit {0}) ℕ ℕ
bare_dispatcher = record { version = codes "1"; management = none }

dispatch_registers_example :
    ((dispatch_method machine messages bare_dispatcher plugin_register (codes "v") tt).0
      ≡ some (success (registered (new_registration (codes "1")))))
    ↔ ((v : ℕ) × (unmarshal_version machine (machine.scan (or_empty_object (codes "v"))) ≡ some v)
        × ((v ≡ 2) ⊎ (v ≡ 3)))
dispatch_registers_example =
    dispatch_registers machine messages bare_dispatcher (codes "v") plugin_register tt (inl refl)

-- A registration is answered with an envelope marked ok.
dispatch_run : (dispatch machine messages bare_dispatcher [] (codes "v") tt).0 ≡ codes "y"
unfolding dispatch dispatch_method validate_lifecycle_request same trim decode_struct find_field
    equal_fold is_digit digits_value success_envelope
dispatch_run = refl

decimal_run : decimal 10 4_294_967_295 [] ≡ codes "4294967295"
unfolding decimal
decimal_run = refl

-- ===== src/Plugin/Envelope.antt =====
-- The envelopes of the plugin's answers (internal/plugin/envelope.go). The JSON of the SDK's envelope
-- and of the answers is a parameter, which may fail.
use codex_pat.Auth.{ParseRequest, RefreshRequest}
use codex_pat.Base.{Bool, Bytes, Option, String, [], codes, false, none, some, true, ℕ}
use codex_pat.HostRpc.Envelope.{Envelope}
use codex_pat.Plugin.{Answer, ManagementRequest, Method, PluginResponse, failure, success}

-- What the plugin takes from the SDK and `encoding/json`: the names of the methods, the decoding of
-- the requests, and the encoding of an answer and of an envelope.
pub record Messages (L A : Type 0) : Type 0 where
  pub method_of : Bytes → Method
  pub read_parse_request : Bytes → Option ParseRequest
  pub read_refresh_request : Bytes → Option RefreshRequest
  pub read_registration_request : Bytes → Option (Unit {0})
  pub read_management_request : Bytes → Option ManagementRequest
  pub answer_json : Answer L A → Option Bytes
  pub envelope_json : Envelope → Option Bytes

-- The texts that stand in for an envelope which cannot be encoded.
abbrev error_fallback : Bytes
error_fallback =
    codes
      "{\"ok\":false,\"error\":{\"code\":\"plugin_error\",\"message\":\"plugin request failed\"}}"

abbrev success_fallback : Bytes
success_fallback =
    codes
      "{\"ok\":false,\"error\":{\"code\":\"encode_failed\",\"message\":\"plugin response could not be encoded\"}}"

abbrev pub or_text : Bytes → Option Bytes → Bytes
or_text fallback none = fallback
or_text fallback (some raw) = raw

module _ {L A : Type 0} (messages : Messages L A) where
  -- `errorEnvelope`.
  unfoldable pub error_envelope : String → Bytes → Bool → ℕ → Bytes
  error_envelope code message retryable status = or_text error_fallback (
      messages.envelope_json (record {
        is_ok = false;
        result = [];
        fault = some (record {
          code = codes code;
          message = message;
          retryable = retryable;
          http_status = status;
        });
      }))

  abbrev pub result_envelope : Option Bytes → Bytes
  result_envelope none =
      error_envelope "encode_failed" (codes "plugin response could not be encoded") false 0
  result_envelope (some result) =
      or_text success_fallback
        (messages.envelope_json (record { is_ok = true; result = result; fault = none }))

  -- `successEnvelope`.
  unfoldable pub success_envelope : Answer L A → Bytes
  success_envelope a = result_envelope (messages.answer_json a)

  -- `ErrorResponse`.
  unfoldable pub error_response : String → String → Bytes
  error_response code message = error_envelope code (codes message) false 0

  -- A response, encoded.
  abbrev pub encode : PluginResponse (Answer L A) → Bytes
  encode (success a) = success_envelope a
  encode (failure code message retryable status) = error_envelope code message retryable status

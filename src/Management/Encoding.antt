-- ===== src/Management/Encoding.antt =====
-- The responses as the host gets them (internal/management/response.go and the types of
pub mod Guarded
use mathlib.Core.Option
use codex_pat.Base.{Bytes, List, Option, [], codes, inl, inr, none, not, some, ℕ, ◌∷◌, ◌⊎◌}
use codex_pat.HostRpc.Client.{text_field}
use codex_pat.Json.{Dict, Items, Json, array, boolean, end, field, item, nothing, object, string}
use codex_pat.Management.{AccountStatus, Body, Response, account, accounts, problem, resource}
use codex_pat.Management.Assets.{Page, resource_response}
use codex_pat.Platform.{Platform}

-- internal/management/types.go): `jsonDataResponse`, `jsonErrorResponse` and `jsonResponse`.

-- `accountStatus`, as it is marshalled.
unfoldable pub account_json : AccountStatus → Json
account_json a = object (
    field (codes "auth_index") (string a.auth_index) (
      field (codes "name") (string a.name) (
        text_field (codes "email") a.email (
          text_field (codes "account_id") a.account_id (
            text_field (codes "plan_type") a.plan_type (
              text_field (codes "validated_at") a.validated_at (
                field (codes "disabled") (boolean a.disabled) (
                  field (codes "unavailable") (boolean a.unavailable)
                    (field (codes "readiness") (string a.readiness) end)))))))))

abbrev accounts_json : List AccountStatus → Items
accounts_json [] = nothing
accounts_json (a ∷ as') = item (account_json a) (accounts_json as')

-- `dataEnvelope` and `errorEnvelope`; a resource has no JSON.
unfoldable pub body_json : Body → Option Json
body_json (resource path) = none
body_json (account a) = some (object (field (codes "data") (account_json a) end))
body_json (accounts as') = some (
    object (
      field (codes "data") (object (field (codes "accounts") (array (accounts_json as')) end)) end))
body_json (problem code message retryable) = some (
    object (
      field (codes "error")
        (object (
          field (codes "code") (string (codes code)) (
            field (codes "message") (string (codes message))
              (field (codes "retryable") (boolean retryable) end))))
        end))

abbrev pub json_headers : Dict Bytes
json_headers =
    (codes "Content-Type", codes "application/json; charset=utf-8")
    ∷ (codes "Cache-Control", codes "no-store")
    ∷ (codes "X-Content-Type-Options", codes "nosniff")
    ∷ []

-- `jsonResponse`, with the text of the value, or none if it cannot be encoded.
unfoldable pub json_response : ℕ → Option Bytes → Page
json_response status none = record {
  status_code = 500;
  headers = json_headers;
  body =
      codes
        "{\"error\":{\"code\":\"internal_error\",\"message\":\"The response could not be encoded.\",\"retryable\":false}}";
}
json_response status (some raw) = record {
  status_code = status;
  headers = json_headers;
  body = raw;
}

module _ (go : Platform) (embedded : Bytes → Option Bytes) where
  unfoldable pub json_page : Response → Page
  json_page r = json_response r.status_code (Option.map go.json_text (body_json r.body))

  abbrev pub resource_page : Option (Page ⊎ Response) → Response → Page
  resource_page none r = json_page r
  resource_page (some (inl page)) r = page
  resource_page (some (inr refused)) r = json_page refused

  abbrev pub page_by_body : Response → Body → Page
  page_by_body r (resource path) = resource_page (resource_response embedded path) r
  page_by_body r _ = json_page r

  -- What `Handle` returns: a page, or the JSON of the response.
  unfoldable pub to_page : Response → Page
  to_page r = page_by_body r r.body

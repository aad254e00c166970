-- ===== src/Management.antt =====
-- The management API (internal/management): routes, responses, and the handlers. The mutex of the
-- handlers is left out: a handler here runs with no other beside it.
pub mod Handler
pub mod Assets
pub mod Failures
pub mod Status
pub mod Encoding
use codex_pat.Base.{
  Bool, Bytes, List, Option, String, [], codes, false, if◌then◌else◌, inl, inr, leb, length, ltb,
  none, not, same, some, true, ℕ, ◌&&◌, ◌+◌, ◌-◌, ◌==◌, ◌||◌, ◌∷◌, ◌⊎◌,
}
use codex_pat.Credential.{Credential}
use codex_pat.Credential.Codec.{read_string}
use codex_pat.Errors.{
  Error, ErrorKind, account_mismatch, authentication, error_details, invalid_input, kind_text,
  malformed_response, persistence, rate_limited, rejected, transient,
}
use codex_pat.Json.{Fields, Scan, end, field, null, object, single}
use codex_pat.Platform.{Platform}
use codex_pat.Text.Case.{equal_fold, to_upper}
use codex_pat.Text.Trim.{trim, trim_right_set}
use codex_pat.Whoami.{max_token_bytes}

-- `accountStatus`.
pub record AccountStatus : Type 0 where
  pub auth_index : Bytes
  pub name : Bytes
  pub email : Bytes
  pub account_id : Bytes
  pub plan_type : Bytes
  pub validated_at : Bytes
  pub disabled : Bool
  pub unavailable : Bool
  pub readiness : Bytes

-- A response before it is encoded: a resource, the data of one account or of all, or an error with its
-- code, its message and the retryable mark.
pub data Body : Type 0 where
  resource : Bytes → Body
  account : AccountStatus → Body
  accounts : List AccountStatus → Body
  problem : String → String → Bool → Body

pub record Response : Type 0 where
  pub status_code : ℕ
  pub body : Body

-- `jsonErrorResponse`.
abbrev pub json_error_response : ℕ → String → String → Bool → Response
json_error_response status code message retryable = record {
  status_code = status;
  body = problem code message retryable;
}

abbrev pub max_management_body_bytes : ℕ
max_management_body_bytes = max_token_bytes + 1024

abbrev pub management_import_path : Bytes
management_import_path = codes "/v0/management/plugins/codex-pat/import"

abbrev pub management_status_path : Bytes
management_status_path = codes "/v0/management/plugins/codex-pat/status"

abbrev pub management_revalidate_path : Bytes
management_revalidate_path = codes "/v0/management/plugins/codex-pat/revalidate"

-- The keys of `assetsByPath`.
abbrev pub resource_paths : List Bytes
resource_paths =
    codes "/v0/resource/plugins/codex-pat/manage"
    ∷ codes "/v0/resource/plugins/codex-pat/assets/app.css"
    ∷ codes "/v0/resource/plugins/codex-pat/assets/app.js"
    ∷ codes "/v0/resource/plugins/codex-pat/assets/icons/refresh-cw.svg"
    ∷ codes "/v0/resource/plugins/codex-pat/assets/icons/trash-2.svg"
    ∷ codes "/v0/resource/plugins/codex-pat/assets/icons/key-round.svg"
    ∷ []

unfoldable pub is_listed : Bytes → List Bytes → Bool
is_listed path [] = false
is_listed path (p ∷ ps) = same path p || is_listed path ps

-- What a request asks for.
pub data Route : Type 0 where
  to_resource : Bytes → Route
  to_import to_status to_revalidate not_found : Route

abbrev pub request_path : Bytes → Bytes
request_path raw =
    let path = trim_right_set (codes "/") (trim raw) in if same path [] then codes "/" else path

-- The routing of `Handle`.
unfoldable pub route : Platform → Bytes → Bytes → Route
route go raw_method raw_path =
    let method = to_upper go (trim raw_method) in
    let path = request_path raw_path in
    if same method (codes "GET") && is_listed path resource_paths
    then to_resource path
    else if same method (codes "POST") && same path management_import_path
    then to_import
    else if same method (codes "GET") && same path management_status_path
    then to_status
    else if same method (codes "POST") && same path management_revalidate_path
    then to_revalidate
    else not_found

-- `patFailureResponse`, by what `ErrorDetails` returns.
abbrev failure_by_kind : ErrorKind → Bool → ℕ → Response
failure_by_kind invalid_input retryable upstream =
    json_error_response (if upstream == 413 then upstream else 400) (kind_text invalid_input)
      "A valid Codex PAT beginning with at- is required." false
failure_by_kind authentication retryable upstream =
    json_error_response 422 (kind_text authentication) "The Codex Auth API rejected the PAT." false
failure_by_kind rejected retryable upstream =
    json_error_response 422 (kind_text rejected) "The Codex Auth API rejected the PAT." false
failure_by_kind rate_limited retryable upstream =
    json_error_response 429 (kind_text rate_limited) "PAT validation was rate limited. Retry later."
      true
failure_by_kind transient retryable upstream =
    json_error_response 503 (kind_text transient) "PAT validation is temporarily unavailable." true
failure_by_kind malformed_response retryable upstream =
    json_error_response 502 (kind_text malformed_response)
      "The Codex Auth API returned invalid account metadata." false
failure_by_kind account_mismatch retryable upstream =
    json_error_response 409 (kind_text account_mismatch)
      "The PAT belongs to a different user or workspace." false
failure_by_kind persistence retryable upstream =
    json_error_response 500 (kind_text persistence)
      "The PAT credential could not be saved securely." false

unfoldable pub pat_failure_response : Error → Response
pat_failure_response e =
    let (kind, retryable, upstream) = error_details e in failure_by_kind kind retryable upstream

module _ (go : Platform) where
  -- A struct with one text field, and no other key allowed.
  unfoldable pub read_only_field : Bytes → Fields → Bytes → Option Bytes
  read_only_field key end old = some old
  read_only_field key (field k v fs) old =
      if not (equal_fold go k key)
      then none
      else elim (read_string v old) [ none ↦ none | some s ↦ read_only_field key fs s ]

  abbrev strict_value : Bytes → Scan → Option Bytes
  strict_value key (single null) = some []
  strict_value key (single (object fs)) = read_only_field key fs []
  strict_value key _ = none

  -- `decodeStrictBody` and `requestErrorResponse`: the field, or the response that refuses the body.
  unfoldable pub decode_strict_body : Bytes → Bytes → Response ⊎ Bytes
  decode_strict_body key body =
      if length body == 0
      then inl (json_error_response 400 "invalid_request" "The request body is invalid." false)
      else if ltb max_management_body_bytes (length body)
      then inl (json_error_response 413 "request_too_large" "The request body is too large." false)
      else elim (strict_value key (go.scan body)) [
        | none ↦
            inl (json_error_response 400 "invalid_request" "The request body is invalid." false)
        | some s ↦ inr s
      ]

  -- `statusFromCredential`.
  unfoldable pub status_from_credential :
      Credential → Bytes → Bytes → Bool → Bool → Bytes → AccountStatus
  status_from_credential c index name disabled unavailable readiness = record {
    auth_index = trim index;
    name = trim name;
    email = trim c.email;
    account_id = trim c.account_id;
    plan_type = trim c.plan_type;
    validated_at = if c.validated_at == 0 then [] else go.format_seconds c.validated_at;
    disabled = disabled || c.disabled;
    unavailable = unavailable;
    readiness = readiness;
  }

abbrev pub watcher_ready_settle_delay : ℕ
watcher_ready_settle_delay = 250_000_000

-- `watcherUpdateSettled`, of the file's modification time, the runtime's update time and now.
unfoldable pub watcher_update_settled : ℕ → ℕ → ℕ → Bool
watcher_update_settled mod_time updated_at now =
    if mod_time == 0 || updated_at == 0 || now == 0
    then false
    else if ltb updated_at mod_time || ltb now updated_at
    then false
    else leb watcher_ready_settle_delay (now - updated_at)

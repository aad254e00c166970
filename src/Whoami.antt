-- ===== src/Whoami.antt =====
-- Tokens and identities (internal/pat/whoami.go): the check of a token, the request to the Codex
-- Auth API, and the reading of its answer.
pub mod Token
pub mod Identities
pub mod Rejections
use codex_pat.Base.{
  Bool, Bytes, Option, String, [], codes, false, has_prefix, if◌then◌else◌, leb, length, ltb, none,
  not, same, some, true, ℕ, ◌&&◌, ◌*◌, ◌++◌, ◌==◌, ◌||◌, ◌∷◌,
}
use codex_pat.Errors.{
  Error, Result, authentication, err, invalid_input, malformed_response, no_error, ok, pat, plain,
  rate_limited, refuse, rejected, response_body_too_large, transient, wrapped, ◌>>=◌, ◌>>◌,
}
use codex_pat.Json.{
  Dict, Json, Scan, boolean, malformed, null, single, string, trailing_garbage, trailing_value,
}
use codex_pat.Platform.{Platform, Url}
use codex_pat.Text.Struct.{decode_struct}
use codex_pat.Text.Trim.{trim, trim_right_set}
use mathlib.Core.Option

abbrev pub max_token_bytes : ℕ
max_token_bytes = 16 * 1024

abbrev pub max_whoami_body_bytes : ℕ
max_whoami_body_bytes = 1024 * 1024

abbrev pub max_identity_field_bytes : ℕ
max_identity_field_bytes = 4 * 1024

abbrev pub default_auth_api_base_url : Bytes
default_auth_api_base_url = codes "https://auth.openai.com/api/accounts"

abbrev pub whoami_path : Bytes
whoami_path = codes "/v1/user-auth-credential/whoami"

pub record Identity : Type 0 where
  pub user_id : Bytes
  pub account_id : Bytes
  pub plan_type : Bytes
  pub email : Bytes
  pub fed_ramp : Bool

-- The runes that the loops over tokens and identity fields refuse. All of them are ASCII, so the
-- loops go by bytes: no other rune has such a byte in its encoding.
unfoldable pub is_control : ℕ → Bool
is_control c = ltb c 0x20 || c == 0x7f

unfoldable pub has_control : Bytes → Bool
unfolding is_control
has_control [] = false
has_control (c ∷ s) = is_control c || has_control s

abbrev invalid : String → ℕ → Error
invalid message status = pat invalid_input message status false no_error

-- `NormalizeToken`.
unfoldable pub normalize_token : Bytes → Result Bytes
normalize_token raw = do
  let token = trim raw
  refuse (same token []) (invalid "PAT is required" 400)
  refuse (ltb max_token_bytes (length token)) (invalid "PAT exceeds the allowed size" 413)
  refuse (not (has_prefix token (codes "at-"))) (invalid "credential is not a Codex PAT" 400)
  refuse (has_control token) (invalid "PAT contains invalid control characters" 400)
  ok token

-- `normalizeIdentityField`; the names of fields in the messages are left out.
unfoldable pub normalize_identity_field : Bytes → Bool → Result Bytes
normalize_identity_field raw required =
    let value = trim raw in
    if same value []
    then (if required then err (plain "whoami response field is empty") else ok [])
    else if ltb max_identity_field_bytes (length value)
    then err (plain "whoami response field is too large")
    else if has_control value
    then err (plain "whoami response field contains control characters")
    else ok value

-- `classifyStatus`.
unfoldable pub classify_status : ℕ → Error
classify_status status =
    if status == 401 || status == 403
    then pat authentication "PAT was rejected by the Codex Auth API" status false no_error
    else if status == 429
    then pat rate_limited "Codex Auth API rate limited PAT validation" status true no_error
    else if leb 500 status
    then pat transient "Codex Auth API is temporarily unavailable" status true no_error
    else pat rejected "Codex Auth API rejected PAT validation" status false no_error

-- The struct that `decodeIdentity` decodes into; `none` is a nil pointer.
pub record Wire : Type 0 where
  pub user_id : Option Bytes
  pub account_id : Option Bytes
  pub plan_type : Option Bytes
  pub fed_ramp : Option Bool
  pub email : Option Bytes

pub data WireField : Type 0 where
  user_id_key account_id_key plan_type_key fed_ramp_key email_key : WireField

abbrev pub wire_table : Dict WireField
wire_table =
    (codes "chatgpt_user_id", user_id_key)
    ∷ (codes "chatgpt_account_id", account_id_key)
    ∷ (codes "chatgpt_plan_type", plan_type_key)
    ∷ (codes "chatgpt_account_is_fedramp", fed_ramp_key)
    ∷ (codes "email", email_key)
    ∷ []

-- A value for a `*string`; the outer `none` is a type error, and null gives nil.
abbrev read_string_pointer : Json → Option (Option Bytes)
read_string_pointer null = some none
read_string_pointer (string s) = some (some s)
read_string_pointer _ = none

abbrev read_bool_pointer : Json → Option (Option Bool)
read_bool_pointer null = some none
read_bool_pointer (boolean b) = some (some b)
read_bool_pointer _ = none

unfoldable pub assign_wire : WireField → Json → Wire → Option Wire
assign_wire user_id_key v w = Option.map (λ x. record w { user_id = x }) (read_string_pointer v)
assign_wire account_id_key v w =
    Option.map (λ x. record w { account_id = x }) (read_string_pointer v)
assign_wire plan_type_key v w = Option.map (λ x. record w { plan_type = x }) (read_string_pointer v)
assign_wire fed_ramp_key v w = Option.map (λ x. record w { fed_ramp = x }) (read_bool_pointer v)
assign_wire email_key v w = Option.map (λ x. record w { email = x }) (read_string_pointer v)

abbrev no_wire : Wire
no_wire = record {
  user_id = none;
  account_id = none;
  plan_type = none;
  fed_ramp = none;
  email = none;
}

-- A field that must be there.
abbrev pub required : {A : Type 0} → Option A → Result A
required none = err (plain "whoami response is missing required fields")
required (some a) = ok a

abbrev optional_email : Option Bytes → Result Bytes
optional_email none = ok []
optional_email (some e) = normalize_identity_field e false

-- The part of `decodeIdentity` behind the decoder.
unfoldable pub check_wire : Wire → Result Identity
check_wire w = do
  user ← required w.user_id
  account ← required w.account_id
  plan ← required w.plan_type
  fed_ramp ← required w.fed_ramp
  user_id ← normalize_identity_field user true
  account_id ← normalize_identity_field account true
  plan_type ← normalize_identity_field plan true
  email ← optional_email w.email
  ok (record {
    user_id = user_id;
    account_id = account_id;
    plan_type = plan_type;
    email = email;
    fed_ramp = fed_ramp;
  })

abbrev decoded : Option Wire → Result Wire
decoded none = err (wrapped "decode whoami response" (plain "json: type error"))
decoded (some w) = ok w

-- `safeVersion`; the bytes kept are those of printable ASCII.
abbrev keep_printable : Bytes → Bytes
keep_printable [] = []
keep_printable (c ∷ s) =
    let rest = keep_printable s in if ltb c 0x21 || ltb 0x7e c then rest else c ∷ rest

abbrev or_dev : Bytes → Bytes
or_dev [] = codes "dev"
or_dev (c ∷ s) = c ∷ s

unfoldable pub safe_version : Bytes → Bytes
safe_version version = or_dev (keep_printable (trim version))

-- `pluginapi.HTTPRequest`.
pub record Request : Type 0 where
  pub method : Bytes
  pub url : Bytes
  pub headers : Dict Bytes
  pub body : Bytes

-- `pluginapi.HTTPResponse` with the error that comes beside it.
pub record Reply : Type 0 where
  pub status_code : ℕ
  pub body : Bytes
  pub failure : Error

abbrev is_success : ℕ → Bool
is_success status = not (ltb status 200 || leb 300 status)

module _ (go : Platform) where
  abbrev decode_scanned : Scan → Result Wire
  decode_scanned malformed = err (wrapped "decode whoami response" (plain "json: syntax error"))
  decode_scanned (single j) = decoded (decode_struct go wire_table assign_wire j no_wire)
  decode_scanned (trailing_value j) =
      decoded (decode_struct go wire_table assign_wire j no_wire) >>= λ w.
      err (plain "whoami response contains trailing JSON")
  decode_scanned (trailing_garbage j) =
      decoded (decode_struct go wire_table assign_wire j no_wire) >>= λ w.
      err (wrapped "decode trailing whoami data" (plain "json: syntax error"))

  -- `decodeIdentity`.
  unfoldable pub decode_identity : Bytes → Result Identity
  decode_identity raw = do
    refuse (length raw == 0 || ltb max_whoami_body_bytes (length raw))
        (plain "whoami response size is invalid")
    wire ← decode_scanned (go.scan raw)
    check_wire wire

  abbrev check_url : Option Url → Result Bytes
  check_url none = err (wrapped "parse Codex Auth API base URL" (plain "url.Error"))
  check_url (some u) = do
    refuse (not (same u.scheme (codes "http")) && not (same u.scheme (codes "https")))
        (plain "Codex Auth API base URL must use http or https")
    refuse (same u.host [] || u.has_user || not (same u.raw_query []) || not (same u.fragment []))
        (plain "Codex Auth API base URL is invalid")
    ok (
        go.url_text
          (record u { path = trim_right_set (codes "/") u.path ++ whoami_path; raw_path = [] }))

  -- `ResolveWhoamiURL`.
  unfoldable pub resolve_whoami_url : Bytes → Result Bytes
  resolve_whoami_url raw =
      let base = trim raw in
      check_url (go.parse_url (if same base [] then default_auth_api_base_url else base))

  -- `FetchIdentity` up to the call: the request that it makes.
  unfoldable pub whoami_request : Bytes → Bytes → Bytes → Result Request
  whoami_request base_url version raw_token = do
    token ← normalize_token raw_token
    endpoint ← elim (resolve_whoami_url base_url) [
      | ok url ↦ ok url
      | err e ↦ err (pat invalid_input "Codex Auth API base URL is invalid" 500 false e)
    ]
    ok (record {
      method = codes "GET";
      url = endpoint;
      headers =
          (codes "Accept", codes "application/json")
          ∷ (codes "Authorization", codes "Bearer " ++ token)
          ∷ (codes "Originator", codes "codex_cli_rs")
          ∷ (codes "User-Agent", codes "codex-pat/" ++ safe_version version)
          ∷ [];
      body = [];
    })

  abbrev failed_reply : Reply → Error
  failed_reply r =
      if not (is_success r.status_code) && not (r.status_code == 0)
      then classify_status r.status_code
      else if response_body_too_large r.failure
      then pat malformed_response "Codex Auth API returned oversized account metadata" 502 false
          r.failure
      else pat transient "PAT validation request failed" 502 true r.failure

  abbrev accepted_reply : Reply → Result Identity
  accepted_reply r =
      if not (is_success r.status_code)
      then err (classify_status r.status_code)
      else elim (decode_identity r.body) [
        | ok identity ↦ ok identity
        | err e ↦
            err (
              pat malformed_response "Codex Auth API returned invalid account metadata" 502 false e)
      ]

  -- `FetchIdentity` behind the call.
  unfoldable pub read_reply : Reply → Result Identity
  read_reply r = elim r.failure [ no_error ↦ accepted_reply r | _ ↦ err (failed_reply r) ]

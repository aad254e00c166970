-- ===== src/Credential/Codec.antt =====
-- The stored form of a credential: `DecodeCredential`, `DecodeOwnedCredential` and `MarshalJSON`.
pub mod Kept
pub mod Stored
use mathlib.Core.Option
use codex_pat.Base.{
  Bool, Bytes, List, Option, [], codes, false, if◌then◌else◌, map, none, not, same, some, true, ℕ,
  ◌&&◌, ◌++◌, ◌∷◌,
}
use codex_pat.Credential.{
  Credential, auth_kind_pat, empty_credential, forbidden_credential_fields, has_raw, provider_codex,
}
use codex_pat.Errors.{Error, Result, err, ok, plain, refuse, wrapped, ◌>>◌}
use codex_pat.Json.{
  Dict, Fields, Json, Scan, boolean, delete, end, field, from_fields, insert, malformed, null,
  object, single, sort_keys, string, to_fields, trailing_garbage, trailing_value,
}
use codex_pat.Platform.{Platform}
use codex_pat.Text.Case.{equal_fold}
use codex_pat.Text.Struct.{decode_struct}
use codex_pat.Text.Trim.{trim}

pub data Key : Type 0 where
  type_key auth_kind_key access_token_key account_id_key user_id_key email_key plan_type_key : Key
  is_fed_ramp_key validated_at_key validation_state_key disabled_key headers_key : Key
  base_url_key proxy_url_key prefix_key priority_key note_key websockets_key : Key

-- The struct tags of `Credential`.
abbrev pub key_table : Dict Key
key_table =
    (codes "type", type_key)
    ∷ (codes "auth_kind", auth_kind_key)
    ∷ (codes "access_token", access_token_key)
    ∷ (codes "account_id", account_id_key)
    ∷ (codes "chatgpt_user_id", user_id_key)
    ∷ (codes "email", email_key)
    ∷ (codes "plan_type", plan_type_key)
    ∷ (codes "chatgpt_account_is_fedramp", is_fed_ramp_key)
    ∷ (codes "validated_at", validated_at_key)
    ∷ (codes "validation_state", validation_state_key)
    ∷ (codes "disabled", disabled_key)
    ∷ (codes "headers", headers_key)
    ∷ (codes "base_url", base_url_key)
    ∷ (codes "proxy_url", proxy_url_key)
    ∷ (codes "prefix", prefix_key)
    ∷ (codes "priority", priority_key)
    ∷ (codes "note", note_key)
    ∷ (codes "websockets", websockets_key)
    ∷ []

-- `credentialFieldNames`: the same names.
unfoldable pub credential_field_names : List Bytes
credential_field_names = map (λ entry. entry.0) key_table

-- Values for a Go string and a Go bool that hold `old`; null leaves them, `none` is a type error.
abbrev pub read_string : Json → Bytes → Option Bytes
read_string null old = some old
read_string (string s) old = some s
read_string _ old = none

abbrev pub read_bool : Json → Bool → Option Bool
read_bool null old = some old
read_bool (boolean b) old = some b
read_bool _ old = none

-- The entries of a `map[string]string`: null makes an empty text.
unfoldable pub read_headers : Fields → Dict Bytes → Option (Dict Bytes)
read_headers end m = some m
read_headers (field k v fs) m = elim (read_string v []) [
  | none ↦ none
  | some s ↦ read_headers fs (insert k s m)
]

abbrev read_header_map : Json → Dict Bytes → Option (Dict Bytes)
read_header_map null old = some []
read_header_map (object fs) old = read_headers fs old
read_header_map _ old = none

-- `set[key]`, for each of the keys.
unfoldable pub delete_all : List Bytes → Dict Json → Dict Json
delete_all [] m = m
delete_all (k ∷ ks) m = delete_all ks (delete k m)

-- `for key, value := range known { fields[key] = value }`
unfoldable pub insert_all : Dict Json → Dict Json → Dict Json
insert_all [] m = m
insert_all ((k, v) ∷ known) m = insert_all known (insert k v m)

-- `omitempty`.
abbrev pub text_entry : Bytes → Bytes → Dict Json
text_entry key [] = []
text_entry key (c ∷ s) = (key, string (c ∷ s)) ∷ []

abbrev pub map_entry : Bytes → Dict Bytes → Dict Json
map_entry key [] = []
map_entry key (e ∷ m) =
    (key, object (to_fields (sort_keys (map (λ entry. (entry.0, string entry.1)) (e ∷ m))))) ∷ []

abbrev value_entry : Bytes → Option Json → Dict Json
value_entry key none = []
value_entry key (some v) = (key, v) ∷ []

abbrev flag_entry : Bytes → Bool → Dict Json
flag_entry key true = (key, boolean true) ∷ []
flag_entry key false = []

-- What `DecodeOwnedCredential` returns: the record is not ours, its marker cannot be read, or it is
-- ours and decodes to a credential or an error.
pub data Ownership : Type 0 where
  foreign : Ownership
  unreadable : Ownership
  owned : Result Credential → Ownership

module _ (go : Platform) where
  abbrev read_time : Json → ℕ → Option ℕ
  read_time null old = some old
  read_time (string s) old = go.parse_time s
  read_time _ old = none

  unfoldable pub assign_key : Key → Json → Credential → Option Credential
  assign_key type_key v c = Option.map (λ x. record c { type_name = x }) (read_string v c.type_name)
  assign_key auth_kind_key v c =
      Option.map (λ x. record c { auth_kind = x }) (read_string v c.auth_kind)
  assign_key access_token_key v c =
      Option.map (λ x. record c { access_token = x }) (read_string v c.access_token)
  assign_key account_id_key v c =
      Option.map (λ x. record c { account_id = x }) (read_string v c.account_id)
  assign_key user_id_key v c =
      Option.map (λ x. record c { chatgpt_user_id = x }) (read_string v c.chatgpt_user_id)
  assign_key email_key v c = Option.map (λ x. record c { email = x }) (read_string v c.email)
  assign_key plan_type_key v c =
      Option.map (λ x. record c { plan_type = x }) (read_string v c.plan_type)
  assign_key is_fed_ramp_key v c =
      Option.map (λ x. record c { is_fed_ramp = x }) (read_bool v c.is_fed_ramp)
  assign_key validated_at_key v c =
      Option.map (λ x. record c { validated_at = x }) (read_time v c.validated_at)
  assign_key validation_state_key v c =
      Option.map (λ x. record c { validation_state = x }) (read_string v c.validation_state)
  assign_key disabled_key v c = Option.map (λ x. record c { disabled = x }) (read_bool v c.disabled)
  assign_key headers_key v c =
      Option.map (λ x. record c { headers = x }) (read_header_map v c.headers)
  assign_key base_url_key v c =
      Option.map (λ x. record c { base_url = x }) (read_string v c.base_url)
  assign_key proxy_url_key v c =
      Option.map (λ x. record c { proxy_url = x }) (read_string v c.proxy_url)
  assign_key prefix_key v c = Option.map (λ x. record c { prefix = x }) (read_string v c.prefix)
  assign_key priority_key v c = some (record c { priority = some v })
  assign_key note_key v c = Option.map (λ x. record c { note = x }) (read_string v c.note)
  assign_key websockets_key v c =
      Option.map (λ x. record c { websockets = x }) (read_bool v c.websockets)

  abbrev with_raw : Json → Option Credential → Result Credential
  with_raw j none = err (wrapped "decode PAT credential" (plain "json: type error"))
  with_raw (object fs) (some c) = ok (record c { raw = from_fields fs [] })
  with_raw _ (some c) = err (plain "PAT credential must be a JSON object")

  abbrev decode_trailing : Json → Error → Result Credential
  decode_trailing j e = elim (decode_struct go key_table assign_key j empty_credential) [
    | none ↦ err (wrapped "decode PAT credential" (plain "json: type error"))
    | some c ↦ err e
  ]

  abbrev decode_scanned : Scan → Result Credential
  decode_scanned malformed = err (wrapped "decode PAT credential" (plain "json: syntax error"))
  decode_scanned (single j) = with_raw j (decode_struct go key_table assign_key j empty_credential)
  decode_scanned (trailing_value j) =
      decode_trailing j (plain "PAT credential contains trailing JSON")
  decode_scanned (trailing_garbage j) =
      decode_trailing j (wrapped "decode trailing PAT credential data" (plain "json: syntax error"))

  -- `DecodeCredential`.
  unfoldable pub decode_credential : Bytes → Result Credential
  decode_credential raw = do
    refuse (same (trim raw) []) (plain "credential JSON is empty")
    decode_scanned (go.scan raw)

  -- The struct of `DecodeOwnedCredential`: type and auth kind.
  abbrev assign_marker : Bool → Json → Bytes × Bytes → Option (Bytes × Bytes)
  assign_marker true v (t, k) = Option.map (λ x. (x, k)) (read_string v t)
  assign_marker false v (t, k) = Option.map (λ x. (t, x)) (read_string v k)

  abbrev marker_table : Dict Bool
  marker_table = (codes "type", true) ∷ (codes "auth_kind", false) ∷ []

  abbrev unmarshal_marker : Scan → Option (Bytes × Bytes)
  unmarshal_marker (single j) = decode_struct go marker_table assign_marker j ([], [])
  unmarshal_marker _ = none

  abbrev is_marked : Bytes × Bytes → Bool
  is_marked (t, k) = equal_fold go (trim t) provider_codex && equal_fold go (trim k) auth_kind_pat

  -- `DecodeOwnedCredential`.
  unfoldable pub decode_owned_credential : Bytes → Ownership
  decode_owned_credential raw = elim (unmarshal_marker (go.scan raw)) [
    | none ↦ unreadable
    | some m ↦ if is_marked m then owned (decode_credential raw) else foreign
  ]

  -- What `json.Marshal` makes of the struct.
  unfoldable pub known_fields : Credential → Dict Json
  known_fields c =
      (codes "type", string c.type_name)
      ∷ (codes "auth_kind", string c.auth_kind)
      ∷ (codes "access_token", string c.access_token)
      ∷ (codes "account_id", string c.account_id)
      ∷ (codes "chatgpt_user_id", string c.chatgpt_user_id)
      ∷ (text_entry (codes "email") c.email
          ++ ((codes "plan_type", string c.plan_type)
              ∷ (codes "chatgpt_account_is_fedramp", boolean c.is_fed_ramp)
              ∷ (codes "validated_at", string (go.format_time c.validated_at))
              ∷ (text_entry (codes "validation_state") c.validation_state
                  ++ ((codes "disabled", boolean c.disabled)
                      ∷ (map_entry (codes "headers") c.headers
                          ++ (text_entry (codes "base_url") c.base_url
                              ++ (text_entry (codes "proxy_url") c.proxy_url
                                  ++ (text_entry (codes "prefix") c.prefix
                                      ++ (value_entry (codes "priority") c.priority
                                          ++ (text_entry (codes "note") c.note
                                              ++ flag_entry (codes "websockets")
                                                  c.websockets))))))))))

  -- The map that `MarshalJSON` encodes.
  unfoldable pub marshal_fields : Credential → Dict Json
  marshal_fields c =
      let kept = delete_all forbidden_credential_fields (delete_all credential_field_names c.raw) in
      let fields = insert_all (known_fields c) kept in
      if has_raw c (codes "websockets") && not c.websockets
      then insert (codes "websockets") (boolean false) fields
      else fields

  -- `MarshalJSON`.
  unfoldable pub marshal : Credential → Bytes
  marshal c = go.json_text (object (to_fields (sort_keys (marshal_fields c))))

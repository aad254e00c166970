-- ===== src/Credential/AuthData.antt =====
-- The runtime record of a credential: `Credential.AuthData` and `disabledAuthData`.
use codex_pat.Base.{
  Bool, Bytes, Option, [], all, codes, drop, false, if◌then◌else◌, leb, length, ltb, none, not,
  same, some, true, ℕ, ◌&&◌, ◌*◌, ◌++◌, ◌+◌, ◌-◌, ◌==◌, ◌||◌, ◌∷◌,
}
use codex_pat.Credential.{Credential, auth_kind_pat, has_raw, or_empty, provider_codex}
use codex_pat.Credential.Codec.{map_entry, text_entry}
use codex_pat.Json.{Dict, Json, boolean, insert, null, number, string}
use codex_pat.Platform.{Platform}
use codex_pat.Text.Trim.{trim, trim_set}

-- `pluginapi.AuthData`. A value of the metadata is written as the JSON value that it becomes.
pub record AuthData : Type 0 where
  pub id : Bytes
  pub provider : Bytes
  pub file_name : Bytes
  pub label : Bytes
  pub prefix : Bytes
  pub proxy_url : Bytes
  pub disabled : Bool
  pub storage_json : Bytes
  pub metadata : Dict Json
  pub attributes : Dict Bytes

-- A run of digits, and its value.
unfoldable pub is_digit : ℕ → Bool
is_digit c = leb b'0' c && leb c b'9'

unfoldable pub digits_value : ℕ → Bytes → ℕ
digits_value acc [] = acc
digits_value acc (c ∷ s) = digits_value (acc * 10 + (c - b'0')) s

unfoldable pub strip_zeros : Bytes → Bytes
strip_zeros [] = []
strip_zeros (c ∷ s) = elim (c == b'0') [ true ↦ strip_zeros s | false ↦ c ∷ s ]

abbrev or_zero : Bytes → Bytes → Bytes
or_zero sign [] = codes "0"
or_zero sign (c ∷ s) = sign ++ (c ∷ s)

abbrev pub is_empty_text : Bytes → Bool
is_empty_text [] = true
is_empty_text (c ∷ s) = false

-- `strconv.Itoa` of the value of `strconv.Atoi` at the digits behind a sign, at 64 bits.
unfoldable pub signed_digits : Bytes → ℕ → Bytes → Option Bytes
signed_digits sign limit s =
    if is_empty_text s || not (all is_digit s) || ltb limit (digits_value 0 s)
    then none
    else some (or_zero sign (strip_zeros s))

abbrev pub max_int64 : ℕ
max_int64 = 9_223_372_036_854_775_807

unfoldable pub atoi_text : Bytes → Option Bytes
atoi_text [] = none
atoi_text (c ∷ s) =
    if c == b'-'
    then signed_digits (codes "-") (max_int64 + 1) s
    else if c == b'+'
    then signed_digits [] max_int64 s
    else signed_digits [] max_int64 (c ∷ s)

-- `normalizedPriority`: the empty text where there is none. `json.Unmarshal` reads null as 0.
unfoldable pub normalized_priority : Option Json → Bytes
normalized_priority none = []
normalized_priority (some null) = codes "0"
normalized_priority (some (number n)) = or_empty (atoi_text n)
normalized_priority (some (string s)) = or_empty (atoi_text (trim s))
normalized_priority (some _) = []

-- `credentialLabel`.
unfoldable pub credential_label : Credential → Bytes
credential_label c =
    let email = trim c.email in
    let account = trim c.account_id in
    let tail = if ltb 8 (length account) then drop (length account - 8) account else account in
    if not (same email [])
    then email
    else if same tail []
    then codes "Codex PAT"
    else codes "Codex PAT - " ++ tail

abbrev attribute_entry : Bytes → Bytes → Dict Bytes
attribute_entry key [] = []
attribute_entry key (c ∷ s) = (key, c ∷ s) ∷ []

abbrev header_attribute : Bytes → Bytes → Dict Bytes → Dict Bytes
header_attribute [] value m = m
header_attribute (c ∷ name) [] m = m
header_attribute (c ∷ name) (d ∷ value) m = insert (codes "header:" ++ (c ∷ name)) (d ∷ value) m

-- The loop over the headers; Go visits a map in any order, the model in the order of the list.
unfoldable pub header_attributes : Dict Bytes → Dict Bytes → Dict Bytes
header_attributes [] m = m
header_attributes ((name, value) ∷ hs) m =
    header_attributes hs (header_attribute (trim name) (trim value) m)

abbrev websockets_shown : Credential → Bool
websockets_shown c = has_raw c (codes "websockets") || c.websockets

module _ (go : Platform) where
  unfoldable pub auth_metadata : Credential → Dict Json
  auth_metadata c =
      (codes "type", string provider_codex)
      ∷ (codes "auth_kind", string auth_kind_pat)
      ∷ (codes "access_token", string c.access_token)
      ∷ (codes "account_id", string c.account_id)
      ∷ (codes "chatgpt_user_id", string c.chatgpt_user_id)
      ∷ (codes "plan_type", string c.plan_type)
      ∷ (codes "chatgpt_account_is_fedramp", boolean c.is_fed_ramp)
      ∷ (codes "validated_at", string (go.format_time c.validated_at))
      ∷ (codes "disabled", boolean c.disabled)
      ∷ (text_entry (codes "email") c.email
          ++ (text_entry (codes "validation_state") c.validation_state
              ++ (map_entry (codes "headers") c.headers
                  ++ (text_entry (codes "base_url") c.base_url
                      ++ (text_entry (codes "proxy_url") c.proxy_url
                          ++ (text_entry (codes "prefix") c.prefix
                              ++ (text_entry (codes "note") c.note
                                  ++ (if websockets_shown c
                                      then (codes "websockets", boolean c.websockets) ∷ []
                                      else []))))))))

  unfoldable pub auth_attributes : Credential → Dict Bytes
  auth_attributes c = header_attributes c.headers (
      (codes "plan_type", c.plan_type)
      ∷ ((if same c.base_url [] then [] else (codes "base_url", trim c.base_url) ∷ [])
          ++ (attribute_entry (codes "priority") (normalized_priority c.priority)
              ++ (attribute_entry (codes "note") (trim c.note)
                  ++ (if websockets_shown c
                      then (codes "websockets", codes (if c.websockets then "true" else "false"))
                        ∷ []
                      else [])))))

  -- `AuthData`.
  unfoldable pub auth_data : Credential → Bytes → Bytes → AuthData
  auth_data c raw file = record {
    id = [];
    provider = provider_codex;
    file_name = trim file;
    label = credential_label c;
    prefix = trim_set (codes "/") (trim c.prefix);
    proxy_url = trim c.proxy_url;
    disabled = c.disabled;
    storage_json = raw;
    metadata = auth_metadata c;
    attributes = auth_attributes c;
  }

-- `disabledAuthData`.
unfoldable pub disabled_auth_data : Bytes → Bytes → AuthData
disabled_auth_data raw file = record {
  id = [];
  provider = provider_codex;
  file_name = trim file;
  label = codes "Codex PAT (invalid)";
  prefix = [];
  proxy_url = [];
  disabled = true;
  storage_json = raw;
  metadata =
      (codes "type", string provider_codex)
      ∷ (codes "auth_kind", string auth_kind_pat)
      ∷ (codes "disabled", boolean true)
      ∷ (codes "validation_state", string (codes "malformed"))
      ∷ [];
  attributes = [];
}

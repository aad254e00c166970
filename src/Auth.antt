-- ===== src/Auth.antt =====
-- The auth provider (internal/pat/parser.go): `ParseAuth` and `RefreshAuth`.
pub mod FailClosed
pub mod Imported
use codex_pat.Base.{Bool, Bytes, Option, [], codes, false, if◌then◌else◌, not, same, some, ◌&&◌}
use codex_pat.Credential.{Credential, is_valid, provider_codex}
use codex_pat.Credential.AuthData.{AuthData, auth_data, disabled_auth_data}
use codex_pat.Credential.Codec.{Ownership, decode_owned_credential, foreign, owned, unreadable}
use codex_pat.Errors.{Result, err, ok}
use codex_pat.FileName.{file_name, is_owned_file, is_owned_file_for_principal}
use codex_pat.Json.{Dict, Json, boolean, lookup}
use codex_pat.Platform.{Platform}
use codex_pat.Text.Trim.{trim}

-- `pluginapi.AuthParseRequest`, without what the code does not read.
pub record ParseRequest : Type 0 where
  pub file_name : Bytes
  pub raw_json : Bytes

-- `pluginapi.AuthParseResponse`: not handled, or the record.
pub data ParseResponse : Type 0 where
  ignored : ParseResponse
  handled : AuthData → ParseResponse

-- `pluginapi.AuthRefreshRequest`.
pub record RefreshRequest : Type 0 where
  pub auth_id : Bytes
  pub auth_provider : Bytes
  pub storage_json : Bytes
  pub metadata : Dict Json
  pub attributes : Dict Bytes

-- `metadataBool`.
abbrev pub metadata_bool : Option Json → Bool
metadata_bool (some (boolean b)) = b
metadata_bool _ = false

module _ (go : Platform) where
  abbrev parse_owned : ParseRequest → Result Credential → ParseResponse
  parse_owned r (err e) = handled (disabled_auth_data r.raw_json r.file_name)
  parse_owned r (ok c) =
      if not (is_valid go c)
      then handled (disabled_auth_data r.raw_json r.file_name)
      else if is_owned_file go r.file_name
          && not (is_owned_file_for_principal go r.file_name c.account_id c.chatgpt_user_id)
      then handled (disabled_auth_data r.raw_json r.file_name)
      else handled (auth_data go c (trim r.raw_json) r.file_name)

  abbrev parse_decoded : ParseRequest → Ownership → ParseResponse
  parse_decoded r foreign = ignored
  parse_decoded r unreadable =
      if is_owned_file go r.file_name
      then handled (disabled_auth_data r.raw_json r.file_name)
      else ignored
  parse_decoded r (owned c) = parse_owned r c

  -- `ParseAuth`.
  unfoldable pub parse_auth : ParseRequest → ParseResponse
  parse_auth r = parse_decoded r (decode_owned_credential go r.raw_json)

  abbrev refreshed : RefreshRequest → ParseResponse → AuthData
  refreshed r (handled a) = a
  refreshed r ignored = record {
    id = trim r.auth_id;
    provider = if same (trim r.auth_provider) [] then provider_codex else trim r.auth_provider;
    file_name = [];
    label = [];
    prefix = [];
    proxy_url = [];
    disabled = metadata_bool (lookup (codes "disabled") r.metadata);
    storage_json = r.storage_json;
    metadata = r.metadata;
    attributes = r.attributes;
  }

  -- `RefreshAuth`.
  unfoldable pub refresh_auth : RefreshRequest → AuthData
  refresh_auth r = refreshed r (parse_auth (record { file_name = []; raw_json = r.storage_json }))

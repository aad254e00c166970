-- ===== src/Tests/Saves.antt =====
-- Saving, importing, revalidating and showing a credential, on a host that stores what it is given.
use codex_pat.Base.{
  [], codes, contains_byte, false, has_prefix, if◌then◌else◌, none, refl, same, some, true, ◌++◌,
  ◌∷◌, ◌≡◌, ◌≤◌,
}
use codex_pat.Credential.{
  Credential, apply_identity, disable, forbidden_credential_fields, has_bad_prefix, has_forbidden,
  has_good_headers, has_raw, is_normal_token, is_valid, new_credential, sync_fed_ramp_header,
  validate,
}
use codex_pat.Credential.Codec.{
  assign_key, credential_field_names, decode_credential, decode_owned_credential, delete_all,
  insert_all, known_fields, marshal, marshal_fields, read_headers,
}
use codex_pat.Credential.Codec.Kept.{listed, lookup-marshal_fields}
use codex_pat.Errors.{ok}
use codex_pat.Exec.{attempt, lift, or_raise, pure, raise, refuse_if, ◌>>=◌}
use codex_pat.FileName.{
  allowed, file_name, frame, has_path_part, hex_encode, is_ascii_alpha_numeric, is_hex_digit,
  is_lower_hex, is_owned_file, is_owned_file_for_principal, is_readable_suffix,
  is_safe_auth_file_name, parse_owned_file, parse_stem, principal_hash, principal_preimage,
  put_uint32, same_principal, sanitize_file_segment, sanitize_loop, sanitize_round,
}
use codex_pat.Json.{boolean, delete, from_fields, has, insert, lookup, string, to_fields}
use codex_pat.Management.{
  AccountStatus, pat_failure_response, status_from_credential, watcher_update_settled,
}
use codex_pat.Management.Failures.{pat_failure_response-status_code}
use codex_pat.Management.Status.{
  credential_status, live_status, owned_status, physical_status, runtime_readiness, status_for_file,
}
use codex_pat.Management.Status.Ready.{status_for_file_ready}
use codex_pat.Resolve.{
  choose_any, classify, find_preferred, inspect_file, inspect_physical, read_candidate, record_file,
  resolve_file_name, survey,
}
use codex_pat.Service.{
  RevalidationResult, SaveResult, auth_index_for_file, credential_payload_equal, fail_closed_fields,
  fail_closed_host_payload, find_index, read_secured_credential, rewrite_secured_credential, valid,
  validate_token,
}
use codex_pat.Service.Save.{conclude, import_token, revalidate, save_as, save_credential}
use codex_pat.Service.Save.Imports.{IsImported}
use codex_pat.Service.Save.Outcomes.{IsStored, Reflects}
use codex_pat.Service.Save.Stores.{import_token_stores, revalidate_stores, save_credential_stores}
use codex_pat.Service.Save.Written.{IsWritten, accepted}
use codex_pat.Service.Watcher.{
  await_watcher_persistence, await_watcher_stage, await_watcher_state, check_index, check_runtime,
  confirm, next_round, observe, round, runtime_ready, watch,
}
use codex_pat.Tests.Machine.{
  credential, live_host, machine, machine-IsDigest, service, zero_file, zero_name,
}
use codex_pat.Text.Affix.{
  contains_any, has_suffix, last_element, path_base, trim_prefix, trim_suffix,
}
use codex_pat.Text.Case.{equal_fold, is_ascii, lower_byte, to_lower}
use codex_pat.Text.Struct.{decode_fields, decode_struct, find_field}
use codex_pat.Text.Trim.{
  space_width, space_width_back, trim, trim_left, trim_left_set, trim_right, trim_right_set,
  trim_set,
}
use codex_pat.Whoami.{
  assign_wire, check_wire, classify_status, decode_identity, has_control, is_control,
  normalize_identity_field, normalize_token, read_reply, resolve_whoami_url, safe_version,
  whoami_request,
}

abbrev saved : SaveResult
saved = record {
  credential = credential;
  file_name = zero_name;
  path = codes "/auths/" ++ zero_name;
}

save_run :
    (save_credential machine (accepted live_host) service 0 credential [] (0, [])).0 ≡ ok saved
unfolding same contains_byte has_prefix space_width space_width_back trim_left trim_right trim
    trim_left_set trim_right_set trim_set is_ascii lower_byte to_lower equal_fold has_suffix
    trim_prefix trim_suffix contains_any last_element path_base find_field decode_fields
    decode_struct is_ascii_alpha_numeric is_hex_digit is_lower_hex allowed sanitize_round
    sanitize_loop hex_encode put_uint32 frame principal_preimage is_readable_suffix has_path_part
    parse_stem sanitize_file_segment principal_hash file_name parse_owned_file is_owned_file
    is_owned_file_for_principal same_principal is_safe_auth_file_name lookup insert delete has
    from_fields to_fields pure raise lift or_raise attempt ◌>>=◌ refuse_if is_control has_control
    normalize_token normalize_identity_field classify_status assign_wire check_wire safe_version
    decode_identity resolve_whoami_url whoami_request read_reply sync_fed_ramp_header new_credential
    apply_identity disable has_raw has_forbidden is_normal_token has_bad_prefix has_good_headers
    validate is_valid credential_field_names read_headers delete_all insert_all assign_key
    decode_credential decode_owned_credential known_fields marshal_fields marshal record_file
    classify inspect_physical choose_any find_preferred read_candidate inspect_file survey
    resolve_file_name fail_closed_fields fail_closed_host_payload credential_payload_equal
    rewrite_secured_credential read_secured_credential find_index auth_index_for_file validate_token
    runtime_ready confirm observe check_runtime check_index round next_round watch
    await_watcher_state await_watcher_stage await_watcher_persistence save_credential
save_run = refl

save_credential_stores_example :
    IsStored machine credential saved
    × IsWritten machine saved
        (save_credential machine (accepted live_host) service 0 credential [] (0, [])).1.1
save_credential_stores_example =
    save_credential_stores machine live_host service 0 machine-IsDigest credential [] 0 {r = saved}
      save_run

-- The credential as it is after a validation at the host's time.
abbrev renewed : Credential
renewed = record credential { validated_at = 10_000_000_000 }

abbrev result : RevalidationResult
result = record { outcome = valid; saved = record saved { credential = renewed } }

revalidate_run :
    (revalidate machine (accepted live_host) service 0 credential [] (0, [])).0 ≡ ok result
unfolding same contains_byte has_prefix space_width space_width_back trim_left trim_right trim
    trim_left_set trim_right_set trim_set is_ascii lower_byte to_lower equal_fold has_suffix
    trim_prefix trim_suffix contains_any last_element path_base find_field decode_fields
    decode_struct is_ascii_alpha_numeric is_hex_digit is_lower_hex allowed sanitize_round
    sanitize_loop hex_encode put_uint32 frame principal_preimage is_readable_suffix has_path_part
    parse_stem sanitize_file_segment principal_hash file_name parse_owned_file is_owned_file
    is_owned_file_for_principal same_principal is_safe_auth_file_name lookup insert delete has
    from_fields to_fields pure raise lift or_raise attempt ◌>>=◌ refuse_if is_control has_control
    normalize_token normalize_identity_field classify_status assign_wire check_wire safe_version
    decode_identity resolve_whoami_url whoami_request read_reply sync_fed_ramp_header new_credential
    apply_identity disable has_raw has_forbidden is_normal_token has_bad_prefix has_good_headers
    validate is_valid credential_field_names read_headers delete_all insert_all assign_key
    decode_credential decode_owned_credential known_fields marshal_fields marshal record_file
    classify inspect_physical choose_any find_preferred read_candidate inspect_file survey
    resolve_file_name fail_closed_fields fail_closed_host_payload credential_payload_equal
    rewrite_secured_credential read_secured_credential find_index auth_index_for_file validate_token
    runtime_ready confirm observe check_runtime check_index round next_round watch
    await_watcher_state await_watcher_stage await_watcher_persistence save_credential import_token
    save_as conclude revalidate
revalidate_run = refl

revalidate_stores_example :
    Reflects machine credential result
    × IsWritten machine result.saved
        (revalidate machine (accepted live_host) service 0 credential [] (0, [])).1.1
revalidate_stores_example =
    revalidate_stores machine live_host service 0 machine-IsDigest credential [] 0 {r = result}
      revalidate_run

-- The status that is shown for the stored file.
abbrev shown : AccountStatus
shown = record {
  auth_index = codes "7";
  name = zero_name;
  email = [];
  account_id = codes "account-1";
  plan_type = codes "plus";
  validated_at = codes "t";
  disabled = false;
  unavailable = false;
  readiness = codes "ready";
}

status_run : (status_for_file machine live_host zero_file 0).0 ≡ ok (some shown)
unfolding same contains_byte has_prefix space_width space_width_back trim_left trim_right trim
    trim_left_set trim_right_set trim_set is_ascii lower_byte to_lower equal_fold has_suffix
    trim_prefix trim_suffix contains_any last_element path_base find_field decode_fields
    decode_struct is_ascii_alpha_numeric is_hex_digit is_lower_hex allowed sanitize_round
    sanitize_loop hex_encode put_uint32 frame principal_preimage is_readable_suffix has_path_part
    parse_stem sanitize_file_segment principal_hash file_name parse_owned_file is_owned_file
    is_owned_file_for_principal same_principal is_safe_auth_file_name lookup insert delete has
    from_fields to_fields pure raise lift or_raise attempt ◌>>=◌ refuse_if is_control has_control
    normalize_token normalize_identity_field classify_status assign_wire check_wire safe_version
    decode_identity resolve_whoami_url whoami_request read_reply sync_fed_ramp_header new_credential
    apply_identity disable has_raw has_forbidden is_normal_token has_bad_prefix has_good_headers
    validate is_valid credential_field_names read_headers delete_all insert_all assign_key
    decode_credential decode_owned_credential known_fields marshal_fields marshal runtime_readiness
    live_status credential_status owned_status physical_status status_for_file
    status_from_credential watcher_update_settled
status_run = refl

status_for_file_ready_example :
    (is_owned_file machine shown.name ≡ true)
    × (shown.disabled ≡ false)
    × (shown.unavailable ≡ false)
    × (zero_file.disabled ≡ false)
    × (zero_file.unavailable ≡ false)
status_for_file_ready_example =
    status_for_file_ready machine live_host zero_file 0 {a = shown} status_run refl

-- A credential with a note of another tool, and with a refresh token.
abbrev noted : Credential
noted = record credential {
  raw = (codes "tool", boolean true) ∷ (codes "refresh_token", string (codes "r")) ∷ [];
}

tool_unlisted : listed (codes "tool") credential_field_names ≡ false
unfolding credential_field_names same
tool_unlisted = refl

lookup-marshal_fields_example : lookup (codes "tool") (marshal_fields machine noted) ≡ (
    if listed (codes "tool") forbidden_credential_fields
    then none
    else lookup (codes "tool") noted.raw)
lookup-marshal_fields_example = lookup-marshal_fields machine noted (codes "tool") tool_unlisted

pat_failure_response-status_code_example :
    (400 ≤ (pat_failure_response (classify_status 429)).status_code)
    × ((pat_failure_response (classify_status 429)).status_code ≤ 503)
pat_failure_response-status_code_example = pat_failure_response-status_code (classify_status 429)

-- The result of importing the token behind white space.
abbrev imported : SaveResult
imported = record saved { credential = renewed }

import_run :
    (import_token machine (accepted live_host) service 0 (codes " at-1") (0, [])).0 ≡ ok imported
unfolding same contains_byte has_prefix space_width space_width_back trim_left trim_right trim
    trim_left_set trim_right_set trim_set is_ascii lower_byte to_lower equal_fold has_suffix
    trim_prefix trim_suffix contains_any last_element path_base find_field decode_fields
    decode_struct is_ascii_alpha_numeric is_hex_digit is_lower_hex allowed sanitize_round
    sanitize_loop hex_encode put_uint32 frame principal_preimage is_readable_suffix has_path_part
    parse_stem sanitize_file_segment principal_hash file_name parse_owned_file is_owned_file
    is_owned_file_for_principal same_principal is_safe_auth_file_name lookup insert delete has
    from_fields to_fields pure raise lift or_raise attempt ◌>>=◌ refuse_if is_control has_control
    normalize_token normalize_identity_field classify_status assign_wire check_wire safe_version
    decode_identity resolve_whoami_url whoami_request read_reply sync_fed_ramp_header new_credential
    apply_identity disable has_raw has_forbidden is_normal_token has_bad_prefix has_good_headers
    validate is_valid credential_field_names read_headers delete_all insert_all assign_key
    decode_credential decode_owned_credential known_fields marshal_fields marshal record_file
    classify inspect_physical choose_any find_preferred read_candidate inspect_file survey
    resolve_file_name fail_closed_fields fail_closed_host_payload credential_payload_equal
    rewrite_secured_credential read_secured_credential find_index auth_index_for_file validate_token
    runtime_ready confirm observe check_runtime check_index round next_round watch
    await_watcher_state await_watcher_stage await_watcher_persistence save_credential import_token
    save_as conclude revalidate
import_run = refl

import_token_stores_example :
    IsImported machine (codes " at-1") imported
    × IsWritten machine imported
        (import_token machine (accepted live_host) service 0 (codes " at-1") (0, [])).1.1
import_token_stores_example =
    import_token_stores machine live_host service 0 machine-IsDigest (codes " at-1") 0
      {r = imported} import_run

-- ===== src/Tests/Records.antt =====
-- The auth provider at a stored credential.
use codex_pat.Auth.{ParseRequest, handled, parse_auth}
use codex_pat.Auth.FailClosed.{Enabled, parse_auth-Enabled}
use codex_pat.Base.{[], codes, contains_byte, false, has_prefix, refl, same, ◌≡◌}
use codex_pat.Credential.{
  Credential, apply_identity, disable, has_bad_prefix, has_forbidden, has_good_headers, has_raw,
  is_normal_token, is_valid, new_credential, sync_fed_ramp_header, validate,
}
use codex_pat.Credential.AuthData.{
  AuthData, atoi_text, auth_attributes, auth_data, auth_metadata, credential_label, digits_value,
  disabled_auth_data, header_attributes, is_digit, normalized_priority, signed_digits, strip_zeros,
}
use codex_pat.Credential.Codec.{
  assign_key, credential_field_names, decode_credential, decode_owned_credential, delete_all,
  insert_all, known_fields, marshal, marshal_fields, read_headers,
}
use codex_pat.Exec.{attempt, lift, or_raise, pure, raise, refuse_if, ◌>>=◌}
use codex_pat.FileName.{
  allowed, file_name, frame, has_path_part, hex_encode, is_ascii_alpha_numeric, is_hex_digit,
  is_lower_hex, is_owned_file, is_owned_file_for_principal, is_readable_suffix,
  is_safe_auth_file_name, parse_owned_file, parse_stem, principal_hash, principal_preimage,
  put_uint32, same_principal, sanitize_file_segment, sanitize_loop, sanitize_round,
}
use codex_pat.Json.{delete, from_fields, has, insert, lookup, to_fields}
use codex_pat.Tests.Machine.{credential, credential_fields, machine, zero_name}
use codex_pat.Text.Affix.{
  contains_any, has_suffix, last_element, path_base, trim_prefix, trim_suffix,
}
use codex_pat.Text.Case.{equal_fold, is_ascii, lower_byte, to_lower}
use codex_pat.Text.Struct.{decode_fields, decode_struct, find_field}
use codex_pat.Text.Trim.{
  space_width, space_width_back, trim, trim_left, trim_left_set, trim_right, trim_right_set,
  trim_set,
}
use codex_pat.Whoami.{
  assign_wire, check_wire, classify_status, decode_identity, has_control, is_control,
  normalize_identity_field, normalize_token, read_reply, resolve_whoami_url, safe_version,
  whoami_request,
}

abbrev request : ParseRequest
request = record { file_name = zero_name; raw_json = codes "c" }

abbrev stored : Credential
stored = record credential { validation_state = []; raw = from_fields credential_fields [] }

abbrev handed_out : AuthData
handed_out = auth_data machine stored (codes "c") zero_name

parse_run : parse_auth machine request ≡ handled handed_out
unfolding same contains_byte has_prefix space_width space_width_back trim_left trim_right trim
    trim_left_set trim_right_set trim_set is_ascii lower_byte to_lower equal_fold has_suffix
    trim_prefix trim_suffix contains_any last_element path_base find_field decode_fields
    decode_struct is_ascii_alpha_numeric is_hex_digit is_lower_hex allowed sanitize_round
    sanitize_loop hex_encode put_uint32 frame principal_preimage is_readable_suffix has_path_part
    parse_stem sanitize_file_segment principal_hash file_name parse_owned_file is_owned_file
    is_owned_file_for_principal same_principal is_safe_auth_file_name lookup insert delete has
    from_fields to_fields pure raise lift or_raise attempt ◌>>=◌ refuse_if is_control has_control
    normalize_token normalize_identity_field classify_status assign_wire check_wire safe_version
    decode_identity resolve_whoami_url whoami_request read_reply sync_fed_ramp_header new_credential
    apply_identity disable has_raw has_forbidden is_normal_token has_bad_prefix has_good_headers
    validate is_valid credential_field_names read_headers delete_all insert_all assign_key
    decode_credential decode_owned_credential known_fields marshal_fields marshal is_digit
    digits_value strip_zeros signed_digits atoi_text normalized_priority credential_label
    header_attributes auth_metadata auth_attributes auth_data disabled_auth_data parse_auth
parse_run = refl

handed_out_enabled : handed_out.disabled ≡ false
unfolding auth_data
handed_out_enabled = refl

parse_auth-Enabled_example : Enabled machine request handed_out
parse_auth-Enabled_example =
    parse_auth-Enabled machine request {a = handed_out} parse_run handed_out_enabled

-- ===== src/Tests/Stored.antt =====
-- A new credential written and read back. The letter `c` stands for its text.
use codex_pat.Auth.{handled, parse_auth}
use codex_pat.Auth.Imported.{parse_auth-new_credential}
use codex_pat.Base.{Bytes, arith, codes, false, if◌then◌else◌, refl, same, some, ◌≡◌}
use codex_pat.Credential.{Credential, new_credential, sync_fed_ramp_header}
use codex_pat.Credential.AuthData.{AuthData}
use codex_pat.Credential.Codec.{decode_credential, known_fields, marshal, marshal_fields}
use codex_pat.Credential.Codec.Stored.{IsReadable, decode_credential-marshal, read_back}
use codex_pat.Errors.{ok}
use codex_pat.FileName.{file_name}
use codex_pat.Json.{lookup, malformed, object, single, sort_keys, string, to_fields}
use codex_pat.Platform.{Platform}
use codex_pat.Tests.Machine.{identity, machine, machine-IsDigest}
use codex_pat.Tests.Tokens.{known_identity, token}
use codex_pat.Text.Trim.{trim}

abbrev new_one : Credential
new_one = new_credential (codes "at-1") identity 1

abbrev reader : Platform
reader = record machine {
  scan = λ s.
      if same s (codes "c")
      then single (object (to_fields (sort_keys (marshal_fields machine new_one))))
      else malformed;
}

new_one-IsReadable : IsReadable reader new_one
unfolding marshal new_credential sync_fed_ramp_header same trim marshal_fields known_fields
new_one-IsReadable = record { one_value = refl; instant = refl; not_blank = λ e. cc }

decode_credential-marshal_example :
    decode_credential reader (marshal reader new_one) ≡ ok (read_back reader new_one)
decode_credential-marshal_example =
    decode_credential-marshal reader (codes "at-1") identity 1 new_one-IsReadable

abbrev its_name : Bytes
its_name = file_name reader identity.account_id identity.user_id identity.email identity.plan_type

parse_auth-new_credential_example :
    (a : AuthData) × (parse_auth reader
        (record { file_name = its_name; raw_json = marshal reader new_one })
      ≡ handled a)
    × (a.disabled ≡ false)
    × (lookup (codes "access_token") a.metadata ≡ some (string (codes "at-1")))
parse_auth-new_credential_example =
    parse_auth-new_credential reader (codes "at-1") identity 1 machine-IsDigest token known_identity
      (omega arith) new_one-IsReadable

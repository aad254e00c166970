-- ===== src/Tests/Tokens.antt =====
-- Tokens and identities at concrete texts.
use codex_pat.Base.{arith, codes, has_prefix, refl, same, true, ◌↔◌, ◌≡◌, ◌⊎◌}
use codex_pat.Credential.{new_credential, validate}
use codex_pat.Credential.Fresh.{new_credential-is_valid}
use codex_pat.Errors.{err, is_authentication_failure, no_error, ok}
use codex_pat.Tests.Machine.{identity, machine}
use codex_pat.Text.Case.{equal_fold}
use codex_pat.Text.Struct.{decode_struct, find_field}
use codex_pat.Text.Trim.{trim}
use codex_pat.Whoami.{
  Reply, assign_wire, check_wire, classify_status, decode_identity, has_control,
  normalize_identity_field, normalize_token, read_reply,
}
use codex_pat.Whoami.Identities.{IsIdentity, decode_identity-IsIdentity}
use codex_pat.Whoami.Rejections.{read_reply_rejects}
use codex_pat.Whoami.Token.{IsToken, normalize_token_iff}

normal_run : normalize_token (codes " at-1\n") ≡ ok (codes "at-1")
unfolding normalize_token trim same has_prefix has_control
normal_run = refl

normalize_token_iff_example :
    (normalize_token (codes " at-1\n") ≡ ok (codes "at-1"))
    ↔ ((codes "at-1" ≡ trim (codes " at-1\n")) × IsToken (codes "at-1"))
normalize_token_iff_example = normalize_token_iff (codes " at-1\n") (codes "at-1")

pub token : IsToken (codes "at-1")
token = ((normalize_token_iff (codes " at-1\n") (codes "at-1")).0 normal_run).1

decode_run : decode_identity machine (codes "w") ≡ ok identity
unfolding decode_identity decode_struct find_field equal_fold assign_wire check_wire
    normalize_identity_field same trim has_control
decode_run = refl

decode_identity-IsIdentity_example : IsIdentity identity
decode_identity-IsIdentity_example =
    decode_identity-IsIdentity machine (codes "w") {i = identity} decode_run

pub known_identity : IsIdentity identity
known_identity = decode_identity-IsIdentity machine (codes "w") {i = identity} decode_run

new_credential-is_valid_example :
    validate machine (new_credential (codes "at-1") identity 5) ≡ ok tt
new_credential-is_valid_example =
    new_credential-is_valid machine (codes "at-1") identity 5 token known_identity (omega arith)

abbrev rejection : Reply
rejection = record { status_code = 403; body = codes "no"; failure = no_error }

rejected_run : read_reply machine rejection ≡ err (classify_status 403)
unfolding read_reply
rejected_run = refl

read_reply_rejects_example :
    (is_authentication_failure (classify_status 403) ≡ true)
    ↔ ((rejection.status_code ≡ 401) ⊎ (rejection.status_code ≡ 403))
read_reply_rejects_example =
    read_reply_rejects machine rejection {e = classify_status 403} rejected_run

-- ===== src/Service/Payload.antt =====
-- What the host is given to store: the payload of `failClosedHostPayload`.
use codex_pat.Base.{Bytes, [], codes, if◌then◌else◌, refl, same, some, true, ◌≡◌}
use codex_pat.Json.{Fields, boolean, from_fields, lookup, lookup-insert, string}
use codex_pat.Platform.{Platform}
use codex_pat.Service.{fail_closed_fields}

-- The payload's fields are those of the credential, but for the access token, which is the empty
-- text, and for the flag that disables it, which is set.
pub fail_closed_fields_lem :
    (go : Platform) (fs : Fields) (k : Bytes)
    → lookup k (fail_closed_fields go fs) ≡ (
        if same (codes "disabled") k
        then some (boolean true)
        else if same (codes "access_token") k
        then some (string [])
        else lookup k (from_fields fs []))
unfolding fail_closed_fields
fail_closed_fields_lem go fs k =
    rw
      (
        lookup-insert k (codes "disabled") (boolean true),
        lookup-insert k (codes "access_token") (string []),
      )
      refl

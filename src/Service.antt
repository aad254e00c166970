-- ===== src/Service.antt =====
-- The credential service (internal/pat/service.go): validation, import, saving and revalidation.
pub mod Watcher
pub mod Payload
pub mod Reads
pub mod Save
pub mod Quiet
pub mod Options
use codex_pat.Base.{
  Bool, Bytes, List, String, [], codes, false, if◌then◌else◌, not, same, true, ℕ, ◌&&◌, ◌||◌, ◌∷◌,
}
use codex_pat.Credential.{Credential}
use codex_pat.Errors.{Error, Result, err, ok, pat, persistence, plain, wrapped}
use codex_pat.Exec.{Exec, lift, or_raise, pure, refuse_if, ◌>>=◌, ◌>>◌}
use codex_pat.FileName.{file_name}
use codex_pat.Host.{FileEntry, FileInfo, Host}
use codex_pat.Json.{
  Dict, Fields, Json, Scan, boolean, from_fields, insert, object, single, sort_keys, string,
  to_fields,
}
use codex_pat.Platform.{Platform}
use codex_pat.Text.Affix.{path_base}
use codex_pat.Text.Trim.{trim}
use codex_pat.Whoami.{Identity, max_whoami_body_bytes, read_reply, whoami_request}

-- `NewService`, with the settings that the options change; times are in nanoseconds.
pub record Settings : Type 0 where
  pub version : Bytes
  pub base_url : Bytes
  pub timeout : ℕ
  pub poll_interval : ℕ
  pub stable_window : ℕ

pub record SaveResult : Type 0 where
  pub credential : Credential
  pub file_name : Bytes
  pub path : Bytes

pub data Outcome : Type 0 where
  valid invalid account_mismatch_found : Outcome

pub record RevalidationResult : Type 0 where
  pub outcome : Outcome
  pub saved : SaveResult

abbrev pub failure : String → Error → Error
failure message e = pat persistence message 0 false e

module _ (go : Platform) where
  -- The fields of the payload that `failClosedHostPayload` makes.
  unfoldable pub fail_closed_fields : Fields → Dict Json
  fail_closed_fields fs =
      insert (codes "disabled") (boolean true)
        (insert (codes "access_token") (string []) (from_fields fs []))

  abbrev pub fail_closed_scan : Scan → Result Bytes
  fail_closed_scan (single (object fs)) =
      ok (go.json_text (object (to_fields (sort_keys (fail_closed_fields fs)))))
  fail_closed_scan _ = err (plain "disabled credential payload is invalid")

  -- `failClosedHostPayload`.
  unfoldable pub fail_closed_host_payload : Bytes → Result Bytes
  fail_closed_host_payload raw = fail_closed_scan (go.scan raw)

  abbrev pub is_valid_json : Scan → Bool
  is_valid_json (single j) = true
  is_valid_json _ = false

  abbrev comparable : Scan → Scan → Bool
  comparable (single a) (single b) = go.deep_equal a b
  comparable _ _ = false

  -- `credentialPayloadEqual`.
  unfoldable pub credential_payload_equal : Bytes → Bytes → Bool
  credential_payload_equal left right = comparable (go.scan left) (go.scan right)

  module _ (h : Host) where
    abbrev pub check_path : Bytes → Bytes → Exec h.World (Unit {0})
    check_path path name =
        refuse_if (same path [] || not (same (path_base path) name))
          (plain "host returned an unexpected auth file path")

    abbrev pub check_regular : FileInfo → Exec h.World (Unit {0})
    check_regular info = do
      refuse_if info.is_symlink (plain "saved auth file must not be a symbolic link")
      refuse_if (not info.is_regular) (plain "saved auth file must be regular")

    -- `rewriteSecuredCredential` (internal/pat/credential.go).
    unfoldable pub rewrite_secured_credential : Bytes → Bytes → Bytes → Exec h.World (Unit {0})
    rewrite_secured_credential raw_path name raw = do
      let path = trim raw_path
      check_path path name
      refuse_if (same (trim raw) [] || not (is_valid_json (go.scan raw)))
          (plain "credential payload is invalid")
      info ← or_raise (wrapped "inspect saved auth file") (h.lstat path)
      check_regular info
      or_raise (wrapped "rewrite saved auth file securely") (h.replace_file path raw)

    -- `readSecuredCredential`.
    unfoldable pub read_secured_credential : Bytes → Bytes → Exec h.World (Bytes × FileInfo)
    read_secured_credential raw_path name = do
      let path = trim raw_path
      check_path path name
      info ← or_raise (wrapped "inspect saved auth file") (h.lstat path)
      check_regular info
      raw ← or_raise (wrapped "read saved auth file") (h.read_file path)
      pure (raw, info)

    -- The loop of `authIndexForFile`, with the index found so far.
    unfoldable pub find_index : Bytes → Bytes → List FileEntry → Result Bytes
    find_index name found [] =
        if same found [] then err (plain "saved auth file is not registered") else ok found
    find_index name found (file ∷ files) =
        let candidate = trim file.auth_index in
        let skipped = file.runtime_only || not (same (trim file.name) name) || same candidate [] in
        let clash = not (same found []) && not (same found candidate) in
        let rest = find_index name (if skipped then found else candidate) files in
        if not skipped && clash
        then err (plain "multiple runtime auth records use the saved filename")
        else rest

    -- `authIndexForFile`.
    unfoldable pub auth_index_for_file : Bytes → Exec h.World Bytes
    auth_index_for_file name = do files ← h.auth_list; lift (find_index name [] files)

    -- `Service.Validate`: the request, the call, and the reading of the answer.
    unfoldable pub validate_token : Settings → Bytes → Exec h.World Identity
    validate_token service token = do
      request ← lift (whoami_request go service.base_url service.version token)
      reply ←
          λ w. let (reply, w') = h.http_do_limited request max_whoami_body_bytes w in (ok reply, w')
      lift (read_reply go reply)

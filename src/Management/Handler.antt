-- ===== src/Management/Handler.antt =====
-- The handlers (internal/management/handler.go), over the credential service.
pub mod Listing
pub mod Quiet
use codex_pat.Base.{
  Bytes, List, Option, String, [], codes, false, if◌then◌else◌, inl, inr, none, not, same, some,
  true, ℕ, ◌∷◌, ◌⊎◌,
}
use codex_pat.Credential.Codec.{Ownership, decode_owned_credential, owned}
use codex_pat.Errors.{Result, err, ok}
use codex_pat.Exec.{Exec, attempt, pure, ◌>>=◌}
use codex_pat.FileName.{is_owned_file, is_owned_file_for_principal}
use codex_pat.Host.{FileEntry, Host, PhysicalFile}
use codex_pat.Management.{
  AccountStatus, Response, Route, account, accounts, decode_strict_body, json_error_response,
  not_found, pat_failure_response, resource, route, status_from_credential, to_import, to_resource,
  to_revalidate, to_status,
}
use codex_pat.Management.Status.{status_for_file}
use codex_pat.Platform.{Platform}
use codex_pat.Service.{
  RevalidationResult, SaveResult, Settings, account_mismatch_found, invalid, valid,
}
use codex_pat.Service.Save.{import_token, revalidate}
use codex_pat.Text.Case.{to_lower}
use codex_pat.Text.Order.{sort_by}
use codex_pat.Text.Trim.{trim}

-- The `sort.Slice` of `listStatuses`: by lower-case names.
unfoldable pub sort_statuses : Platform → List AccountStatus → List AccountStatus
sort_statuses go = sort_by (λ a. to_lower go a.name)

abbrev with_status : Option AccountStatus → List AccountStatus → List AccountStatus
with_status none as' = as'
with_status (some a) as' = a ∷ as'

-- The response to a revalidation that went through.
unfoldable pub revalidation_response : Platform → Bytes → RevalidationResult → Response
revalidation_response go index r = elim r.outcome [
  | invalid ↦
      json_error_response 422 "pat_invalid" "PAT validation failed and the credential was disabled."
        false
  | account_mismatch_found ↦
      json_error_response 409 "account_mismatch"
        "The PAT belongs to a different user or workspace and the credential was disabled." false
  | valid ↦ record {
    status_code = 200;
    body = account (
        status_from_credential go r.saved.credential index r.saved.file_name false false
          (codes "pending"));
  }
]

module _ (go : Platform) (h : Host) (service : Settings) (fuel : ℕ) where
  abbrev import_response : Result SaveResult → Response
  import_response (err e) = pat_failure_response e
  import_response (ok r) = record {
    status_code = 202;
    body =
        account
          (status_from_credential go r.credential [] r.file_name false false (codes "pending"));
  }

  abbrev pub import_decoded : Response ⊎ Bytes → Exec h.World Response
  import_decoded (inl refused) = pure refused
  import_decoded (inr token) =
      attempt (import_token go h service fuel token) >>= λ r. pure (import_response r)

  -- `handleImport`.
  unfoldable pub handle_import : Bytes → Exec h.World Response
  handle_import body = import_decoded (decode_strict_body go (codes "pat") body)

  abbrev revalidated : Bytes → Result RevalidationResult → Response
  revalidated index (err e) = pat_failure_response e
  revalidated index (ok r) = revalidation_response go index r

  abbrev not_found_response : Response
  not_found_response =
      json_error_response 404 "credential_not_found" "The PAT credential was not found." false

  abbrev malformed_credential : String → Response
  malformed_credential message = json_error_response 422 "credential_malformed" message false

  -- The tests of `handleRevalidate` on the file that the host has, and the revalidation.
  unfoldable pub revalidate_owned : Bytes → Bytes → Ownership → Exec h.World Response
  revalidate_owned index name (owned c) =
      if not (is_owned_file go name) then pure not_found_response else elim c [
        | err e ↦
            pure (malformed_credential "The PAT credential is malformed and cannot be revalidated.")
        | ok d ↦
            if not (is_owned_file_for_principal go name d.account_id d.chatgpt_user_id)
            then pure (
                malformed_credential
                  "The PAT credential filename does not match its user and workspace.")
            else (attempt (revalidate go h service fuel d name) >>= λ r. pure (revalidated index r))
      ]
  revalidate_owned index name _ = pure not_found_response

  abbrev pub revalidate_physical : Bytes → Result PhysicalFile → Exec h.World Response
  revalidate_physical index (err e) = pure not_found_response
  revalidate_physical index (ok p) =
      revalidate_owned index p.name (decode_owned_credential go p.json)

  abbrev pub revalidate_decoded : Response ⊎ Bytes → Exec h.World Response
  revalidate_decoded (inl refused) = pure refused
  revalidate_decoded (inr raw_index) =
      let index = trim raw_index in
      if same index []
      then pure (json_error_response 400 "invalid_request" "auth_index is required." false)
      else (attempt (h.auth_get index) >>= revalidate_physical index)

  -- `handleRevalidate`.
  unfoldable pub handle_revalidate : Bytes → Exec h.World Response
  handle_revalidate body = revalidate_decoded (decode_strict_body go (codes "auth_index") body)

  -- The loop of `listStatuses`.
  unfoldable pub list_statuses : List FileEntry → Exec h.World (List AccountStatus)
  list_statuses [] = pure []
  list_statuses (file ∷ files) = status_for_file go h file >>= λ status.
      list_statuses files >>= λ others. pure (with_status status others)

  abbrev pub status_response : Result (List AccountStatus) → Response
  status_response (err e) =
      json_error_response 503 "host_unavailable" "Credential status is temporarily unavailable."
        true
  status_response (ok as') = record { status_code = 200; body = accounts (sort_statuses go as') }

  -- `handleStatus`.
  unfoldable pub handle_status : Exec h.World Response
  handle_status = attempt (h.auth_list >>= list_statuses) >>= λ r. pure (status_response r)

  abbrev pub respond : Route → Bytes → Exec h.World Response
  respond (to_resource path) body = pure (record { status_code = 200; body = resource path })
  respond to_import body = handle_import body
  respond to_status body = handle_status
  respond to_revalidate body = handle_revalidate body
  respond not_found body =
      pure (
        json_error_response 404 "route_not_found" "The requested plugin route was not found." false)

  -- `Handle`.
  unfoldable pub handle : Bytes → Bytes → Bytes → Exec h.World Response
  handle method path body = respond (route go method path) body

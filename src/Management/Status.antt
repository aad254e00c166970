-- ===== src/Management/Status.antt =====
-- The status of one file (`statusForFile`), and the list of them.
pub mod Ready
use codex_pat.Base.{
  Bytes, Option, [], codes, false, if◌then◌else◌, none, not, same, some, true, ℕ, ◌&&◌, ◌||◌,
}
use codex_pat.Credential.{Credential, is_valid, provider_codex}
use codex_pat.Credential.Codec.{Ownership, decode_owned_credential, foreign, owned, unreadable}
use codex_pat.Errors.{Result, err, ok}
use codex_pat.Exec.{Exec, attempt, pure, ◌>>=◌, ◌>>◌}
use codex_pat.FileName.{is_owned_file, is_owned_file_for_principal}
use codex_pat.Host.{FileEntry, Host, PhysicalFile}
use codex_pat.Management.{AccountStatus, status_from_credential, watcher_update_settled}
use codex_pat.Platform.{Platform}
use codex_pat.Resolve.{or_else}
use codex_pat.Text.Case.{equal_fold}
use codex_pat.Text.Trim.{trim}

-- A file that is shown as broken.
abbrev pub broken : Bytes → Bytes → AccountStatus
broken index name = record {
  auth_index = index;
  name = name;
  email = [];
  account_id = [];
  plan_type = [];
  validated_at = [];
  disabled = true;
  unavailable = true;
  readiness = codes "disabled";
}

-- The readiness of a credential whose runtime record is known, and what the record adds.
unfoldable pub runtime_readiness : FileEntry → FileEntry → ℕ → Bytes
runtime_readiness file runtime now =
    if runtime.disabled
    then codes "disabled"
    else if runtime.unavailable
    then codes "unavailable"
    else if watcher_update_settled file.mod_time runtime.updated_at now
    then codes "ready"
    else codes "pending"

module _ (go : Platform) (h : Host) where
  -- The end of the function, with the answer of `AuthGetRuntime` and the time.
  unfoldable pub live_status :
      Credential → Bytes → Bytes → FileEntry → Result FileEntry → ℕ → AccountStatus
  live_status c index name file (err e) now =
      status_from_credential go c index name false false (codes "pending")
  live_status c index name file (ok runtime) now =
      status_from_credential go c index name runtime.disabled runtime.unavailable
        (runtime_readiness file runtime now)

  -- The status of a valid credential in its own file.
  unfoldable pub credential_status :
      Credential → Bytes → Bytes → FileEntry → Exec h.World AccountStatus
  credential_status c index name file =
      if c.disabled || file.disabled
      then pure (status_from_credential go c index name true file.unavailable (codes "disabled"))
      else if file.unavailable
      then pure (status_from_credential go c index name false true (codes "unavailable"))
      else do
        runtime ← attempt (h.auth_get_runtime index)
        now ← λ w. (ok (h.time_now w), w)
        pure (live_status c index name file runtime now)

  -- The branches on what the file holds; `none` is a file that is not shown.
  unfoldable pub owned_status :
      Bytes → Bytes → FileEntry → Ownership → Exec h.World (Option AccountStatus)
  owned_status index name file foreign = pure none
  owned_status index name file unreadable = pure (some (broken index name))
  owned_status index name file (owned (err e)) = pure (some (broken index name))
  owned_status index name file (owned (ok c)) =
      if not (is_valid go c)
      then pure (some (broken index name))
      else if not (is_owned_file_for_principal go name c.account_id c.chatgpt_user_id)
      then pure none
      else credential_status c index name file >>= λ status. pure (some status)

  -- What follows `AuthGet`.
  unfoldable pub physical_status :
      Bytes → FileEntry → Result PhysicalFile → Exec h.World (Option AccountStatus)
  physical_status index file (err e) = pure none
  physical_status index file (ok physical) =
      let name = or_else (trim physical.name) (trim file.name) in
      if not (is_owned_file go name)
      then pure none
      else owned_status index name file (decode_owned_credential go physical.json)

  -- `statusForFile`.
  unfoldable pub status_for_file : FileEntry → Exec h.World (Option AccountStatus)
  status_for_file file =
      let provider = or_else (trim file.provider) (trim file.type_name) in
      let index = trim file.auth_index in
      if not (same provider []) && not (equal_fold go provider provider_codex)
      then pure none
      else if same index []
      then pure none
      else attempt (h.auth_get index) >>= physical_status index file

-- ===== src/Management/Handler/Quiet.antt =====
-- What every call to the host keeps, the handlers keep.
use codex_pat.Base.{Bytes, List, [], codes, inl, inr, not, same, ℕ, ◌&&◌, ◌||◌, ◌∷◌, ◌⊎◌}
use codex_pat.Credential.{Credential, is_valid, provider_codex}
use codex_pat.Credential.Codec.{Ownership, foreign, owned, unreadable}
use codex_pat.Errors.{Result, err, ok}
use codex_pat.Exec.{Exec, attempt, ◌>>=◌}
use codex_pat.Exec.Runs.{Runs-attempt, Runs-bind, Runs-if}
use codex_pat.FileName.{is_owned_file, is_owned_file_for_principal}
use codex_pat.Host.{FileEntry, Host, PhysicalFile}
use codex_pat.Management.{
  Response, Route, decode_strict_body, not_found, route, to_import, to_resource, to_revalidate,
  to_status,
}
use codex_pat.Management.Handler.{
  handle, handle_import, handle_revalidate, handle_status, import_decoded, list_statuses, respond,
  revalidate_decoded, revalidate_owned, revalidate_physical,
}
use codex_pat.Management.Status.{credential_status, owned_status, physical_status, status_for_file}
use codex_pat.Platform.{Platform}
use codex_pat.Resolve.{or_else}
use codex_pat.Service.{Settings}
use codex_pat.Service.Quiet.{HostKeeps, quiet-import_token, quiet-revalidate}
use codex_pat.Service.Reads.{IsQuiet, quiet-pure, quiet-read}
use codex_pat.Text.Case.{equal_fold}
use codex_pat.Text.Trim.{trim}

module _ (go : Platform) (h : Host) (service : Settings) (fuel : ℕ) (I : h.World → Type 0)
    (k : HostKeeps h I) where
  -- An action that is looked at, and the answer that follows.
  quiet-answer :
      {A B : Type 0} (m : Exec h.World A) (f : Result A → Exec h.World B)
      → IsQuiet I m
      → ((r : Result A) → IsQuiet I (f r))
      → IsQuiet I (attempt m >>= f)
  quiet-answer m f q n = Runs-bind _ _ (Runs-attempt m q) n

  quiet-credential_status :
      (c : Credential) (index name : Bytes) (file : FileEntry)
      → IsQuiet I (credential_status go h c index name file)
  unfolding credential_status
  quiet-credential_status c index name file =
      Runs-if (c.disabled || file.disabled) _ _ (λ _. quiet-pure _)
        λ _.
          Runs-if file.unavailable _ _ (λ _. quiet-pure _)
            λ _.
              quiet-answer _ _ (k.reads.auth_get_runtime index)
                λ runtime. Runs-bind _ _ (quiet-read _) λ now. quiet-pure _

  quiet-owned_status :
      (index name : Bytes) (file : FileEntry) (o : Ownership)
      → IsQuiet I (owned_status go h index name file o)
  unfolding owned_status
  quiet-owned_status index name file foreign = quiet-pure _
  quiet-owned_status index name file unreadable = quiet-pure _
  quiet-owned_status index name file (owned (err e)) = quiet-pure _
  quiet-owned_status index name file (owned (ok c)) =
      Runs-if (not (is_valid go c)) _ _ (λ _. quiet-pure _)
        λ _.
          Runs-if (not (is_owned_file_for_principal go name c.account_id c.chatgpt_user_id)) _ _
            (λ _. quiet-pure _)
            λ _. Runs-bind _ _ (quiet-credential_status c index name file) λ status. quiet-pure _

  quiet-physical_status :
      (index : Bytes) (file : FileEntry) (r : Result PhysicalFile)
      → IsQuiet I (physical_status go h index file r)
  unfolding physical_status
  quiet-physical_status index file (err e) = quiet-pure _
  quiet-physical_status index file (ok p) =
      Runs-if (not (is_owned_file go (or_else (trim p.name) (trim file.name)))) _ _
        (λ _. quiet-pure _) λ _. quiet-owned_status _ _ _ _

  quiet-status_for_file : (file : FileEntry) → IsQuiet I (status_for_file go h file)
  unfolding status_for_file
  quiet-status_for_file file =
      let provider = or_else (trim file.provider) (trim file.type_name) in
      Runs-if (not (same provider []) && not (equal_fold go provider provider_codex)) _ _
        (λ _. quiet-pure _)
        λ _.
          Runs-if (same (trim file.auth_index) []) _ _ (λ _. quiet-pure _)
            λ _. quiet-answer _ _ (k.reads.auth_get _) λ r. quiet-physical_status _ _ r

  quiet-list_statuses : (files : List FileEntry) → IsQuiet I (list_statuses go h service fuel files)
  unfolding list_statuses
  quiet-list_statuses [] = quiet-pure _
  quiet-list_statuses (file ∷ files) =
      Runs-bind _ _ (quiet-status_for_file file)
        λ status. Runs-bind _ _ (quiet-list_statuses files) λ others. quiet-pure _

  quiet-handle_status : IsQuiet I (handle_status go h service fuel)
  unfolding handle_status
  quiet-handle_status =
      quiet-answer _ _ (Runs-bind _ _ k.reads.auth_list λ files. quiet-list_statuses files)
        λ r. quiet-pure _

  quiet-handle_import : (body : Bytes) → IsQuiet I (handle_import go h service fuel body)
  unfolding handle_import
  quiet-handle_import body = by_body (decode_strict_body go (codes "pat") body)
    where
      by_body : (r : Response ⊎ Bytes) → IsQuiet I (import_decoded go h service fuel r)
      by_body (inl refused) = quiet-pure _
      by_body (inr token) =
          quiet-answer _ _ (quiet-import_token go h service fuel I k token) λ r. quiet-pure _

  quiet-revalidate_owned :
      (index name : Bytes) (o : Ownership)
      → IsQuiet I (revalidate_owned go h service fuel index name o)
  unfolding revalidate_owned
  quiet-revalidate_owned index name foreign = quiet-pure _
  quiet-revalidate_owned index name unreadable = quiet-pure _
  quiet-revalidate_owned index name (owned (err e)) =
      Runs-if (not (is_owned_file go name)) _ _ (λ _. quiet-pure _) λ _. quiet-pure _
  quiet-revalidate_owned index name (owned (ok d)) =
      Runs-if (not (is_owned_file go name)) _ _ (λ _. quiet-pure _)
        λ _.
          Runs-if (not (is_owned_file_for_principal go name d.account_id d.chatgpt_user_id)) _ _
            (λ _. quiet-pure _)
            λ _. quiet-answer _ _ (quiet-revalidate go h service fuel I k d name) λ r. quiet-pure _

  quiet-revalidate_physical :
      (index : Bytes) (r : Result PhysicalFile)
      → IsQuiet I (revalidate_physical go h service fuel index r)
  quiet-revalidate_physical index (err e) = quiet-pure _
  quiet-revalidate_physical index (ok p) = quiet-revalidate_owned index p.name _

  quiet-handle_revalidate : (body : Bytes) → IsQuiet I (handle_revalidate go h service fuel body)
  unfolding handle_revalidate
  quiet-handle_revalidate body = by_body (decode_strict_body go (codes "auth_index") body)
    where
      by_body : (r : Response ⊎ Bytes) → IsQuiet I (revalidate_decoded go h service fuel r)
      by_body (inl refused) = quiet-pure _
      by_body (inr raw) =
          Runs-if (same (trim raw) []) _ _ (λ _. quiet-pure _)
            λ _. quiet-answer _ _ (k.reads.auth_get (trim raw)) λ r. quiet-revalidate_physical _ r

  -- Whatever is asked, the invariant is kept.
  pub quiet-handle :
      (method path body : Bytes) → IsQuiet I (handle go h service fuel method path body)
  unfolding handle
  quiet-handle method path body = by_route (route go method path)
    where
      by_route : (r : Route) → IsQuiet I (respond go h service fuel r body)
      by_route (to_resource p) = quiet-pure _
      by_route to_import = quiet-handle_import body
      by_route to_status = quiet-handle_status
      by_route to_revalidate = quiet-handle_revalidate body
      by_route not_found = quiet-pure _

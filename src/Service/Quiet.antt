-- ===== src/Service/Quiet.antt =====
-- What every call of a service to the host keeps, its operations keep (internal/pat/service.go).
use codex_pat.Base.{Bool, Bytes, [], not, true, ℕ}
use codex_pat.Credential.{Credential}
use codex_pat.Errors.{Result, err, is_authentication_failure, ok}
use codex_pat.Exec.Runs.{Runs-attempt, Runs-bind, Runs-if, Runs-or_raise}
use codex_pat.FileName.{same_principal}
use codex_pat.Host.{Host}
use codex_pat.Platform.{Platform}
use codex_pat.Service.{Outcome, Settings, rewrite_secured_credential, validate_token}
use codex_pat.Service.Reads.{
  IsQuiet, ReadsKeep, quiet-lift, quiet-pure, quiet-raise, quiet-read, quiet-refuse_if,
  quiet-resolve_file_name, quiet-rewrite_secured_credential,
}
use codex_pat.Service.Save.{
  await_persistence, await_stage, conclude, import_token, revalidate, save_as, save_credential,
}
use codex_pat.Service.Watcher.{await_watcher_persistence, await_watcher_stage, await_watcher_state}
use codex_pat.Service.Watcher.Keeps.{keeps-await_watcher_state}
use codex_pat.Whoami.{Identity, Request}

-- Every callback, the file system and the waits keep the invariant.
pub record HostKeeps (h : Host) (I : h.World → Type 0) : Type 0 where
  pub reads : ReadsKeep h I
  pub http : (r : Request) (limit : ℕ) (w : h.World) → I w → I (h.http_do_limited r limit w).1
  pub auth_save : (name text : Bytes) → IsQuiet I (h.auth_save name text)
  pub replace_file : (path text : Bytes) → IsQuiet I (h.replace_file path text)

module _ (go : Platform) (h : Host) (service : Settings) (fuel : ℕ) (I : h.World → Type 0)
    (k : HostKeeps h I) where
  quiet-validate_token : (token : Bytes) → IsQuiet I (validate_token go h service token)
  unfolding validate_token
  quiet-validate_token token =
      Runs-bind _ _ (quiet-lift _) λ request.
        Runs-bind _ _ (record { from = λ w i. k.http request _ w i }) λ reply. quiet-lift _

  quiet-rewrite :
      (path name raw : Bytes) → IsQuiet I (rewrite_secured_credential go h path name raw)
  quiet-rewrite = quiet-rewrite_secured_credential go h I k.reads k.replace_file

  quiet-await :
      (path name : Bytes) (disabled : Bool) (desired : Bytes)
      → IsQuiet I (await_watcher_state go h service path name disabled desired fuel)
  quiet-await path name disabled desired =
      keeps-await_watcher_state go h service I k.reads path name disabled desired
        (λ e. quiet-rewrite path name desired) fuel

  quiet-await_stage : (name path : Bytes) → IsQuiet I (await_stage go h service fuel name path)
  unfolding await_watcher_stage
  quiet-await_stage name path = Runs-or_raise _ _ (
      Runs-bind _ _
        (Runs-if h.has_runtime _ _ (λ _. quiet-await path name true []) (λ _. quiet-pure true))
        λ done. quiet-lift _)

  quiet-await_persistence :
      (name path : Bytes) (disabled : Bool) (raw : Bytes)
      → IsQuiet I (await_persistence go h service fuel name path disabled raw)
  unfolding await_watcher_persistence
  quiet-await_persistence name path disabled raw = Runs-or_raise _ _ (
      Runs-bind _ _
        (Runs-if h.has_runtime _ _ (λ _. quiet-await path name disabled raw) (λ _. quiet-pure true))
        λ done. quiet-lift _)

  quiet-save_credential :
      (c : Credential) (preferred : Bytes)
      → IsQuiet I (save_credential go h service fuel c preferred)
  unfolding save_credential
  quiet-save_credential c preferred = Runs-bind _ _ (Runs-or_raise _ _ (quiet-lift _)) λ valid.
      Runs-bind _ _ (Runs-or_raise _ _ (quiet-resolve_file_name go h I k.reads c preferred)) λ name.
        Runs-bind _ _ (Runs-or_raise _ _ (quiet-lift _)) λ payload.
          Runs-bind _ _ (Runs-or_raise _ _ (k.auth_save name payload)) λ saved.
            Runs-bind _ _ (quiet-refuse_if _ _) λ named.
              Runs-bind _ _ (quiet-await_stage name saved.path) λ staged.
                Runs-bind _ _ (Runs-or_raise _ _ (quiet-rewrite saved.path name _)) λ rewritten.
                  Runs-bind _ _ (quiet-await_persistence name saved.path c.disabled _)
                    λ persisted. quiet-pure _

  pub quiet-import_token : (raw : Bytes) → IsQuiet I (import_token go h service fuel raw)
  unfolding import_token
  quiet-import_token raw = Runs-bind _ _ (quiet-lift _) λ token.
      Runs-bind _ _ (quiet-validate_token token)
        λ identity. Runs-bind _ _ (quiet-read _) λ now. quiet-save_credential _ _

  quiet-save_as :
      (o : Outcome) (c : Credential) (name : Bytes) → IsQuiet I (save_as go h service fuel o c name)
  unfolding save_as
  quiet-save_as o c name = Runs-bind _ _ (quiet-save_credential c name) λ saved. quiet-pure _

  quiet-conclude :
      (c : Credential) (name : Bytes) (r : Result Identity)
      → IsQuiet I (conclude go h service fuel c name r)
  unfolding conclude
  quiet-conclude c name (err e) =
      Runs-if (not (is_authentication_failure e)) _ _ (λ _. quiet-raise e)
        λ _. Runs-bind _ _ (quiet-read _) λ now. quiet-save_as _ _ _
  quiet-conclude c name (ok identity) =
      Runs-if
        (not (same_principal identity.account_id identity.user_id c.account_id c.chatgpt_user_id)) _
        _ (λ _. Runs-bind _ _ (quiet-read _) λ now. quiet-save_as _ _ _)
        λ _. Runs-bind _ _ (quiet-read _) λ now. quiet-save_as _ _ _

  pub quiet-revalidate :
      (c : Credential) (name : Bytes) → IsQuiet I (revalidate go h service fuel c name)
  unfolding revalidate
  quiet-revalidate c name = Runs-bind _ _ (Runs-or_raise _ _ (quiet-lift _)) λ valid.
      Runs-bind _ _ (Runs-attempt _ (quiet-validate_token _)) λ answer. quiet-conclude c name answer

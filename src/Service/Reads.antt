-- ===== src/Service/Reads.antt =====
-- The parts of a save that only read: an invariant that the host's reading callbacks keep, they keep.
use codex_pat.Base.{Bool, Bytes, List, [], false, not, same, true, ℕ, ◌∷◌}
use codex_pat.Credential.{Credential}
use codex_pat.Errors.{Error, Result, ok}
use codex_pat.Exec.{Exec, lift, pure, raise, refuse_if}
use codex_pat.Exec.Runs.{Runs, Runs-bind, Runs-if, Runs-lift, Runs-or_raise, Runs-pure, Runs-raise}
use codex_pat.Host.{FileEntry, FileInfo, Host}
use codex_pat.Platform.{Platform}
use codex_pat.Resolve.{
  Survey, inspect_file, is_candidate, nothing_found, or_else, read_candidate, resolve_file_name,
  survey,
}
use codex_pat.Service.{
  auth_index_for_file, check_regular, read_secured_credential, rewrite_secured_credential,
}
use codex_pat.Text.Trim.{trim}

abbrev pub IsQuiet : {S A : Type 0} → (S → Type 0) → Exec S A → Type 0
IsQuiet I m = Runs I m (λ _. I) I

-- Every callback that reads keeps the invariant.
pub record ReadsKeep (h : Host) (I : h.World → Type 0) : Type 0 where
  pub auth_list : IsQuiet I h.auth_list
  pub auth_get : (index : Bytes) → IsQuiet I (h.auth_get index)
  pub auth_get_runtime : (index : Bytes) → IsQuiet I (h.auth_get_runtime index)
  pub lstat : (path : Bytes) → IsQuiet I (h.lstat path)
  pub read_file : (path : Bytes) → IsQuiet I (h.read_file path)
  pub wait : (n : ℕ) → IsQuiet I (h.wait n)

module _ {S : Type 0} {I : S → Type 0} where
  pub quiet-pure : {A : Type 0} (a : A) → IsQuiet I (pure a)
  quiet-pure a = Runs-pure a λ s i. i

  pub quiet-read : {A : Type 0} (f : S → A) → IsQuiet I (λ w. (ok (f w), w))
  quiet-read f = record { from = λ s i. i }

  pub quiet-raise : {A : Type 0} (e : Error) → IsQuiet {A = A} I (raise e)
  quiet-raise e = Runs-raise e λ s i. i

  pub quiet-lift : {A : Type 0} (r : Result A) → IsQuiet I (lift r)
  quiet-lift r = Runs-lift r (λ a e s i. i) (λ s i. i)

  pub quiet-refuse_if : (b : Bool) (e : Error) → IsQuiet I (refuse_if b e)
  unfolding refuse_if
  quiet-refuse_if true e = record { from = λ s i. i }
  quiet-refuse_if false e = record { from = λ s i. i }

module _ (go : Platform) (h : Host) (I : h.World → Type 0) (k : ReadsKeep h I) where
  module _ (c : Credential) where
    quiet-read_candidate :
        (index name : Bytes) (f : Survey) → IsQuiet I (read_candidate go c h index name f)
    unfolding read_candidate
    quiet-read_candidate index name f =
        Runs-bind _ _ (Runs-or_raise _ _ (k.auth_get index)) λ p. quiet-lift _

    quiet-inspect_file : (file : FileEntry) (f : Survey) → IsQuiet I (inspect_file go c h file f)
    unfolding inspect_file
    quiet-inspect_file file f =
        let provider = or_else (trim file.provider) (trim file.type_name) in
        Runs-if file.runtime_only _ _ (λ _. quiet-pure f)
          λ _.
            Runs-if (same (trim file.name) []) _ _ (λ _. quiet-pure f)
              λ _.
                Runs-if (not (is_candidate go c provider (trim file.name))) _ _ (λ _. quiet-pure _)
                  λ _.
                    Runs-if (same (trim file.auth_index) []) _ _ (λ _. quiet-raise _)
                      λ _. quiet-read_candidate _ _ _

    quiet-survey : (files : List FileEntry) (f : Survey) → IsQuiet I (survey go c h files f)
    unfolding survey
    quiet-survey [] f = quiet-pure f
    quiet-survey (file ∷ files) f =
        Runs-bind _ _ (quiet-inspect_file file f) λ f'. quiet-survey files f'

    pub quiet-resolve_file_name :
        (preferred : Bytes) → IsQuiet I (resolve_file_name go c h preferred)
    unfolding resolve_file_name
    quiet-resolve_file_name preferred = Runs-bind _ _ (quiet-refuse_if _ _) λ _.
        Runs-bind _ _ (Runs-or_raise _ _ k.auth_list)
          λ files. Runs-bind _ _ (quiet-survey files nothing_found) λ f. quiet-lift _

  pub quiet-check_regular : (info : FileInfo) → IsQuiet I (check_regular go h info)
  quiet-check_regular info = Runs-bind _ _ (quiet-refuse_if _ _) λ _. quiet-refuse_if _ _

  -- Rewriting the file keeps the invariant too, if replacing a file does.
  pub quiet-rewrite_secured_credential :
      ((path text : Bytes) → IsQuiet I (h.replace_file path text))
      → (path name raw : Bytes) → IsQuiet I (rewrite_secured_credential go h path name raw)
  unfolding rewrite_secured_credential
  quiet-rewrite_secured_credential replaces path name raw = Runs-bind _ _ (quiet-refuse_if _ _) λ _.
      Runs-bind _ _ (quiet-refuse_if _ _) λ _. Runs-bind _ _ (Runs-or_raise _ _ (k.lstat _)) λ info.
        Runs-bind _ _ (quiet-check_regular info) λ _. Runs-or_raise _ _ (replaces (trim path) raw)

  pub quiet-read_secured_credential :
      (path name : Bytes) → IsQuiet I (read_secured_credential go h path name)
  unfolding read_secured_credential
  quiet-read_secured_credential path name = Runs-bind _ _ (quiet-refuse_if _ _) λ _.
      Runs-bind _ _ (Runs-or_raise _ _ (k.lstat _)) λ info.
        Runs-bind _ _ (quiet-check_regular info)
          λ _. Runs-bind _ _ (Runs-or_raise _ _ (k.read_file _)) λ raw. quiet-pure _

  pub quiet-auth_index_for_file : (name : Bytes) → IsQuiet I (auth_index_for_file go h name)
  unfolding auth_index_for_file
  quiet-auth_index_for_file name = Runs-bind _ _ k.auth_list λ files. quiet-lift _

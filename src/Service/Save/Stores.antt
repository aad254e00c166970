-- ===== src/Service/Save/Stores.antt =====
-- A save, an import or a revalidation that succeeds has stored what it returns
-- (internal/pat/service.go).
use codex_pat.Base.{Bytes, [], not, subst, ℕ, ◌≡◌}
use codex_pat.Credential.{Credential}
use codex_pat.Errors.{Result, err, is_authentication_failure, ok, ok_injective}
use codex_pat.Exec.Runs.{After, Runs, Runs-bind, Runs-if, Runs-pure, Runs-raise}
use codex_pat.FileName.{same_principal}
use codex_pat.Host.{Host}
use codex_pat.Platform.{IsDigest, Platform}
use codex_pat.Service.{
  Outcome, RevalidationResult, SaveResult, Settings, account_mismatch_found, invalid, valid,
}
use codex_pat.Service.Save.{conclude, import_token, revalidate, save_as, save_credential}
use codex_pat.Service.Save.Imports.{IsImported, import_token-IsImported}
use codex_pat.Service.Save.Outcomes.{
  IsStored, Reflects, revalidate-Reflects, save_credential-IsStored,
}
use codex_pat.Service.Save.Written.{IsWritten, accepted, anything, save_credential-Runs}
use codex_pat.Whoami.{Identity}

-- What holds of a result that an action returned, and of the world behind it.
returned :
    {S A : Type 0} (J : A → S → Type 0) (K : S → Type 0) {r : A} (p : Result A × S)
    → After J K p
    → p.0 ≡ ok r
    → J r (p.1)
returned J K (ok a, s) q e = subst (λ x. J x s) (ok_injective e) q
returned J K (err x, s) q e = cc

module _ (go : Platform) (h : Host) (service : Settings) (fuel : ℕ) where
  save_as-Runs :
      (o : Outcome) (c : Credential) (name : Bytes)
      → Runs
          (λ _. Unit {0})
          (save_as go (accepted h) service fuel o c name)
          (λ r s. IsWritten go r.saved (s.1))
          (λ _. Unit {0})
  unfolding save_as
  save_as-Runs o c name =
      Runs-bind _ _ (save_credential-Runs h go service fuel c name)
        λ saved. Runs-pure _ λ s written. written

  conclude-Runs :
      (c : Credential) (name : Bytes) (answer : Result Identity)
      → Runs
          (λ _. Unit {0})
          (conclude go (accepted h) service fuel c name answer)
          (λ r s. IsWritten go r.saved (s.1))
          (λ _. Unit {0})
  unfolding conclude
  conclude-Runs c name (err e) =
      Runs-if (not (is_authentication_failure e)) _ _ (λ _. Runs-raise e λ s i. tt)
        λ _. Runs-bind _ _ (anything _) λ now. save_as-Runs invalid _ name
  conclude-Runs c name (ok i) =
      Runs-if (not (same_principal i.account_id i.user_id c.account_id c.chatgpt_user_id)) _ _
        (λ _. Runs-bind _ _ (anything _) λ now. save_as-Runs account_mismatch_found _ name)
        λ _. Runs-bind _ _ (anything _) λ now. save_as-Runs valid _ name

  revalidate-Runs :
      (c : Credential) (name : Bytes)
      → Runs
          (λ _. Unit {0})
          (revalidate go (accepted h) service fuel c name)
          (λ r s. IsWritten go r.saved (s.1))
          (λ _. Unit {0})
  unfolding revalidate
  revalidate-Runs c name =
      Runs-bind _ _ (anything _)
        λ _. Runs-bind _ _ (anything _) λ answer. conclude-Runs c name answer

  import_token-Runs :
      (raw : Bytes)
      → Runs
          (λ _. Unit {0})
          (import_token go (accepted h) service fuel raw)
          (λ r s. IsWritten go r (s.1))
          (λ _. Unit {0})
  unfolding import_token
  import_token-Runs raw = Runs-bind _ _ (anything _) λ token.
      Runs-bind _ _ (anything _)
        λ identity. Runs-bind _ _ (anything _) λ now. save_credential-Runs h go service fuel _ []

  module _ (digest : IsDigest go.sha256) where
    -- Whatever the host does, a save that succeeds has stored the given credential, which is valid,
    -- in a file that the plugin owns for the credential's principal: since it began, the host has
    -- accepted a payload under the file's name in which the key access_token is the empty text and
    -- the key disabled is true, and has replaced the file of that name, at the path of the result,
    -- by the credential's text. The digest is taken to be 32 bytes long.
    pub save_credential_stores :
        (c : Credential) (preferred : Bytes) (w : h.World) {r : SaveResult}
        → (save_credential go (accepted h) service fuel c preferred (w, [])).0 ≡ ok r
        → IsStored go c r
          × IsWritten go r (save_credential go (accepted h) service fuel c preferred (w, [])).1.1
    save_credential_stores c preferred w {r} e = (
      (save_credential-IsStored go (accepted h) service fuel digest c preferred).at (w, []) r e,
      returned _ _ _ ((save_credential-Runs h go service fuel c preferred).from (w, []) tt) e,
    )

    -- A revalidation that succeeds has stored a valid credential, with the old account and token, in
    -- a file that the plugin owns for its principal: enabled and marked valid, or disabled and marked
    -- with the reason, as its outcome says. Since it began, the host has accepted a payload under the
    -- file's name in which the key access_token is the empty text and the key disabled is true, and
    -- has replaced the file of that name, at the path of the result, by the credential's text. The
    -- digest is taken to be 32 bytes long.
    pub revalidate_stores :
        (c : Credential) (name : Bytes) (w : h.World) {r : RevalidationResult}
        → (revalidate go (accepted h) service fuel c name (w, [])).0 ≡ ok r
        → Reflects go c r
          × IsWritten go r.saved (revalidate go (accepted h) service fuel c name (w, [])).1.1
    revalidate_stores c name w {r} e = (
      (revalidate-Reflects go (accepted h) service fuel digest c name).at (w, []) r e,
      returned _ _ _ ((revalidate-Runs c name).from (w, []) tt) e,
    )

    -- An import that succeeds has stored a valid credential, enabled and marked valid, with the
    -- trimmed text as its token, in a file that the plugin owns for its principal. Since it began,
    -- the host has accepted a payload under the file's name in which the key access_token is the
    -- empty text and the key disabled is true, and has replaced the file of that name, at the path of
    -- the result, by the credential's text. The digest is taken to be 32 bytes long.
    pub import_token_stores :
        (raw : Bytes) (w : h.World) {r : SaveResult}
        → (import_token go (accepted h) service fuel raw (w, [])).0 ≡ ok r
        → IsImported go raw r
          × IsWritten go r (import_token go (accepted h) service fuel raw (w, [])).1.1
    import_token_stores raw w {r} e = (
      (import_token-IsImported go (accepted h) service fuel digest raw).at (w, []) r e,
      returned _ _ _ ((import_token-Runs raw).from (w, []) tt) e,
    )

-- ===== src/Service/Save/Outcomes.antt =====
-- What saving and revalidating guarantee of the credential in the result.
use codex_pat.Base.{
  Bytes, [], ap, arith, codes, false, ne_of_same-false, not, refl, same, subst, sym, true, ℕ, ◌∙◌,
  ◌≡◌, ◌≢◌,
}
use codex_pat.Credential.{
  Credential, apply_identity, disable, sync_fed_ramp_header, validate, validation_invalid,
  validation_mismatch,
}
use codex_pat.Credential.Checks.{Passes-of_validate}
use codex_pat.Errors.{Result, err, is_authentication_failure, ok}
use codex_pat.Exec.{
  Returns, Returns-bind, Returns-if, Returns-lift, Returns-or_raise, Returns-pure, Returns-raise,
  Returns-then,
}
use codex_pat.FileName.{is_owned_file_for_principal, same_principal}
use codex_pat.Host.{Host}
use codex_pat.Platform.{IsDigest, Platform}
use codex_pat.Resolve.Safe.{IsOwn, resolve_file_name-IsOwn}
use codex_pat.Service.{
  Outcome, RevalidationResult, SaveResult, Settings, account_mismatch_found, invalid, valid,
}
use codex_pat.Service.Save.{conclude, revalidate, save_as, save_credential}
use codex_pat.Text.Trim.{trim}
use codex_pat.Whoami.{Identity}

-- The result of a save: its credential is the one that was to be stored, it is valid, and its file is the
-- plugin's own for its principal.
pub record IsStored (go : Platform) (c : Credential) (r : SaveResult) : Type 0 where
  pub same_credential : r.credential ≡ c
  pub valid_credential : validate go c ≡ ok tt
  pub own_file : is_owned_file_for_principal go r.file_name c.account_id c.chatgpt_user_id ≡ true

pub metadata_parts :
    (go : Platform) (c : Credential)
    → validate go c ≡ ok tt
    → (trim c.account_id ≢ []) × (trim c.chatgpt_user_id ≢ [])
metadata_parts go c v =
    let m = (Passes-of_validate go c v).metadata in
    let parts : (same (trim c.account_id) [] ≡ false) × (same (trim c.chatgpt_user_id) [] ≡ false) =
      ground arith in
    (ne_of_same-false _ (parts.0), ne_of_same-false _ (parts.1))

module _ (go : Platform) (h : Host) (service : Settings) (fuel : ℕ) where
  pub save_credential-IsStored :
      IsDigest go.sha256
      → (c : Credential) (preferred : Bytes)
      → Returns (IsStored go c) (save_credential go h service fuel c preferred)
  unfolding save_credential
  save_credential-IsStored digest c preferred =
      Returns-bind {Q = λ _. validate go c ≡ ok tt} _ _
        (Returns-or_raise _ _ (Returns-lift _ λ u e. e))
        λ _ v.
          let (a, u) = metadata_parts go c v in
          Returns-bind {Q = IsOwn go c} _ _
            (Returns-or_raise _ _ (resolve_file_name-IsOwn go c h digest a u preferred))
            λ name own. Returns-then _ _ λ payload. Returns-then _ _ λ saved. Returns-then _ _ λ _.
              Returns-then _ _ λ _. Returns-then _ _ λ _. Returns-then _ _ λ _.
                Returns-pure _
                  (record { same_credential = refl; valid_credential = v; own_file = own })

-- What an outcome says of the credential that was stored.
abbrev pub Says : Outcome → Credential → Type 0
Says valid d = (d.disabled ≡ false) × (d.validation_state ≡ codes "valid")
Says invalid d = (d.disabled ≡ true) × (d.validation_state ≡ codes "invalid")
Says account_mismatch_found d =
    (d.disabled ≡ true) × (d.validation_state ≡ codes "account_mismatch")

-- The result of revalidating `c`: a stored credential with the token and account of `c`, enabled
-- or disabled as the outcome says.
pub record Reflects (go : Platform) (c : Credential) (r : RevalidationResult) : Type 0 where
  pub stored : IsStored go r.saved.credential r.saved
  pub same_account : r.saved.credential.account_id ≡ c.account_id
  pub same_token : r.saved.credential.access_token ≡ c.access_token
  pub says : Says r.outcome r.saved.credential

-- The credentials that `Revalidate` hands to `saveCredential`.
record Prepared (c d : Credential) (o : Outcome) : Type 0 where
  account : d.account_id ≡ c.account_id
  token : d.access_token ≡ c.access_token
  says : Says o d

disable-invalid : (c : Credential) (now : ℕ) → Prepared c (disable c validation_invalid now) invalid
unfolding disable trim
disable-invalid c now = record { account = refl; token = refl; says = (refl, refl) }

disable-mismatch :
    (c : Credential) (now : ℕ)
    → Prepared c (disable c validation_mismatch now) account_mismatch_found
unfolding disable trim
disable-mismatch c now = record { account = refl; token = refl; says = (refl, refl) }

apply_identity-valid :
    (c : Credential) (i : Identity) (now : ℕ) → Prepared c (apply_identity c i now) valid
unfolding apply_identity sync_fed_ramp_header
apply_identity-valid c i now = record { account = refl; token = refl; says = (refl, refl) }

module _ (go : Platform) (h : Host) (service : Settings) (fuel : ℕ)
    (digest : IsDigest go.sha256) where
  save_as-Reflects :
      (c d : Credential) (o : Outcome) (name : Bytes)
      → Prepared c d o
      → Returns (Reflects go c) (save_as go h service fuel o d name)
  unfolding save_as
  save_as-Reflects c d o name p =
      Returns-bind {Q = IsStored go d} _ _
        (save_credential-IsStored go h service fuel digest d name)
        λ saved stored. Returns-pure _ (reflects saved stored)
    where
      reflects :
          (saved : SaveResult)
          → IsStored go d saved
          → Reflects go c (record { outcome = o; saved = saved })
      reflects saved k = record {
        stored = subst (λ x. IsStored go x saved) (sym k.same_credential) k;
        same_account = ap (λ x. x.account_id) k.same_credential ∙ p.account;
        same_token = ap (λ x. x.access_token) k.same_credential ∙ p.token;
        says = subst (Says o) (sym k.same_credential) p.says;
      }

  conclude-Reflects :
      (c : Credential) (name : Bytes) (answer : Result Identity)
      → Returns (Reflects go c) (conclude go h service fuel c name answer)
  unfolding conclude
  conclude-Reflects c name (err e) =
      Returns-if (not (is_authentication_failure e)) _ _ (λ _. Returns-raise e)
        λ _. Returns-then _ _ λ now. save_as-Reflects c _ invalid name (disable-invalid c now)
  conclude-Reflects c name (ok i) =
      Returns-if (not (same_principal i.account_id i.user_id c.account_id c.chatgpt_user_id)) _ _
        (λ _.
          Returns-then _ _
            λ now. save_as-Reflects c _ account_mismatch_found name (disable-mismatch c now))
        λ _. Returns-then _ _ λ now. save_as-Reflects c _ valid name (apply_identity-valid c i now)

  pub revalidate-Reflects :
      (c : Credential) (name : Bytes)
      → Returns (Reflects go c) (revalidate go h service fuel c name)
  unfolding revalidate
  revalidate-Reflects c name =
      Returns-then _ _ λ _. Returns-then _ _ λ answer. conclude-Reflects c name answer

-- ===== src/Service/Save/Imports.antt =====
-- What importing a token guarantees of the credential in the result.
use codex_pat.Base.{Bytes, [], ap, codes, false, subst, sym, ℕ, ◌∙◌, ◌≡◌}
use codex_pat.Credential.{new_credential, sync_fed_ramp_header}
use codex_pat.Exec.{Returns, Returns-bind, Returns-lift, Returns-then}
use codex_pat.Host.{Host}
use codex_pat.Platform.{IsDigest, Platform}
use codex_pat.Service.{SaveResult, Settings}
use codex_pat.Service.Save.{import_token}
use codex_pat.Service.Save.Outcomes.{IsStored, save_credential-IsStored}
use codex_pat.Text.Trim.{trim}
use codex_pat.Whoami.{Identity}
use codex_pat.Whoami.Token.{normalize_token_iff}

-- A stored credential that is enabled and marked valid, with the trimmed text as its token.
pub record IsImported (go : Platform) (raw : Bytes) (r : SaveResult) : Type 0 where
  pub stored : IsStored go r.credential r
  pub token : r.credential.access_token ≡ trim raw
  pub enabled : r.credential.disabled ≡ false
  pub state : r.credential.validation_state ≡ codes "valid"

module _ (go : Platform) (h : Host) (service : Settings) (fuel : ℕ) (digest : IsDigest go.sha256)
    (raw : Bytes) where
  saved-IsImported :
      (t : Bytes) (i : Identity) (now : ℕ) (r : SaveResult)
      → t ≡ trim raw
      → IsStored go (new_credential t i now) r
      → IsImported go raw r
  unfolding new_credential sync_fed_ramp_header
  saved-IsImported t i now r q k = record {
    stored = subst (λ x. IsStored go x r) (sym k.same_credential) k;
    token = ap (λ x. x.access_token) k.same_credential ∙ q;
    enabled = ap (λ x. x.disabled) k.same_credential;
    state = ap (λ x. x.validation_state) k.same_credential;
  }

  pub import_token-IsImported : Returns (IsImported go raw) (import_token go h service fuel raw)
  unfolding import_token
  import_token-IsImported =
      Returns-bind {Q = λ t. t ≡ trim raw} _ _
        (Returns-lift _ λ t e. ((normalize_token_iff raw t).0 e).0)
        λ t q. Returns-then _ _ λ i. Returns-then _ _ λ now. record {
          at = λ w r e. saved-IsImported t i now r q (
              (save_credential-IsStored go h service fuel digest (new_credential t i now) []).at w r
                e);
        }

-- ===== src/Credential/Fresh.antt =====
-- New credentials are valid: what `Import` makes of a normal token and an accepted identity.
use codex_pat.Base.{
  Bool, Bytes, [], arith, codes, contains_byte, false, if◌then◌else◌, refl, same, same-false,
  same_refl, true, ℕ, ◌<◌, ◌≡◌, ◌≢◌,
}
use codex_pat.Credential.{
  auth_kind_pat, fed_ramp_header, has_bad_prefix, has_good_headers, is_normal_token, new_credential,
  provider_codex, sync_fed_ramp_header, validate,
}
use codex_pat.Credential.Checks.{Passes, validate_of_Passes}
use codex_pat.Errors.{ok}
use codex_pat.Json.{delete, insert, lookup}
use codex_pat.Platform.{Platform}
use codex_pat.Text.Case.{equal_fold, to_lower}
use codex_pat.Text.Trim.{trim, trim_set}
use codex_pat.Whoami.{Identity}
use codex_pat.Whoami.Identities.{IsIdentity}
use codex_pat.Whoami.Token.{IsToken, normalize_token_idem}

-- A text that is trimmed and not empty is not blank.
not_blank : (s : Bytes) → trim s ≡ s → s ≢ [] → same (trim s) [] ≡ false
not_blank s e n = rw e (same-false s n)

module _ (go : Platform) where
  marker-codex : same (to_lower go (trim provider_codex)) provider_codex ≡ true
  unfolding to_lower trim same
  marker-codex = refl

  marker-pat : same (to_lower go (trim auth_kind_pat)) auth_kind_pat ≡ true
  unfolding to_lower trim same
  marker-pat = refl

  no_prefix : has_bad_prefix go [] ≡ false
  unfolding has_bad_prefix trim trim_set same contains_byte
  no_prefix = refl

  good_headers :
      (token : Bytes) (i : Identity) (now : ℕ)
      → has_good_headers go (new_credential token i now) ≡ true
  unfolding has_good_headers new_credential sync_fed_ramp_header insert delete lookup equal_fold
      trim same
  good_headers token i now = go' i.fed_ramp
    where
      go' :
          (b : Bool)
          → has_good_headers go (record (new_credential token i now) {
            is_fed_ramp = b;
            headers =
                if b then insert fed_ramp_header (codes "true") [] else delete fed_ramp_header [];
          })
            ≡ true
      go' true = refl
      go' false = refl

  normal_token : {t : Bytes} → IsToken t → is_normal_token t ≡ true
  unfolding is_normal_token
  normal_token {t} k = rw (normalize_token_idem k, is_normal_token) (same_refl t)

  pub new_credential-Passes :
      (token : Bytes) (i : Identity) (now : ℕ)
      → IsToken token
      → IsIdentity i
      → 0 < now
      → Passes go (new_credential token i now)
  unfolding new_credential sync_fed_ramp_header
  new_credential-Passes token i now t v h = record {
    marker = rw (marker-codex, marker-pat);
    token = normal_token t;
    metadata = rw (
      not_blank i.account_id v.account_field.trimmed v.account_ne_nil,
      not_blank i.user_id v.user_field.trimmed v.user_ne_nil,
      not_blank i.plan_type v.plan_field.trimmed v.plan_ne_nil,
    );
    stamp = ground arith;
    prefix = no_prefix;
    headers = good_headers token i now;
    fed_ramp = refl;
    no_state = refl;
  }

  -- A credential made from a normal token and an accepted identity passes `Validate`, at any
  -- instant after the zero time.
  pub new_credential-is_valid :
      (token : Bytes) (i : Identity) (now : ℕ)
      → IsToken token
      → IsIdentity i
      → 0 < now
      → validate go (new_credential token i now) ≡ ok tt
  new_credential-is_valid token i now t v h =
      validate_of_Passes go (new_credential token i now) (new_credential-Passes token i now t v h)

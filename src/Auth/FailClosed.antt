-- ===== src/Auth/FailClosed.antt =====
-- `ParseAuth` hands out an enabled credential only where everything about it is in order.
use codex_pat.Auth.{ParseRequest, handled, parse_auth, parse_decoded, parse_owned}
use codex_pat.Base.{arith, false, not, refl, true, ◌||◌, ◌≡◌}
use codex_pat.Credential.{Credential, is_valid}
use codex_pat.Credential.AuthData.{AuthData, auth_data, disabled_auth_data}
use codex_pat.Credential.Codec.{Ownership, decode_owned_credential, foreign, owned, unreadable}
use codex_pat.Errors.{Result, err, ok}
use codex_pat.FileName.{is_owned_file, is_owned_file_for_principal}
use codex_pat.Platform.{Platform}
use codex_pat.Text.Trim.{trim}

-- What stands behind an enabled record.
pub record Enabled (go : Platform) (r : ParseRequest) (a : AuthData) : Type 0 where
  pub credential : Credential
  pub decoded : decode_owned_credential go r.raw_json ≡ owned (ok credential)
  pub valid : is_valid go credential ≡ true
  pub not_disabled : credential.disabled ≡ false
  pub principal :
      (not (is_owned_file go r.file_name)
        || is_owned_file_for_principal go r.file_name credential.account_id
            credential.chatgpt_user_id)
      ≡ true
  pub record_of : a ≡ auth_data go credential (trim r.raw_json) r.file_name

module _ (go : Platform) (r : ParseRequest) {a : AuthData} where
  parse_owned-Enabled :
      (c : Result Credential)
      → decode_owned_credential go r.raw_json ≡ owned c
      → parse_owned go r c ≡ handled a
      → a.disabled ≡ false
      → Enabled go r a
  unfolding disabled_auth_data auth_data
  parse_owned-Enabled (err e) q h n = cc
  parse_owned-Enabled (ok c) q h n =
      let (v, p, e) = parts in
      record {
        credential = c;
        decoded = q;
        valid = v;
        not_disabled = ground arith;
        principal = p;
        record_of = e;
      }
    where
      parts :
          (is_valid go c ≡ true)
          × ((not (is_owned_file go r.file_name)
                || is_owned_file_for_principal go r.file_name c.account_id c.chatgpt_user_id)
              ≡ true)
          × (a ≡ auth_data go c (trim r.raw_json) r.file_name)
      parts = ground arith

  parse_decoded-Enabled :
      (o : Ownership)
      → decode_owned_credential go r.raw_json ≡ o
      → parse_decoded go r o ≡ handled a
      → a.disabled ≡ false
      → Enabled go r a
  unfolding disabled_auth_data
  parse_decoded-Enabled foreign q h n = cc
  parse_decoded-Enabled unreadable q h n = ground arith
  parse_decoded-Enabled (owned c) q h n = parse_owned-Enabled c q h n

  -- If `ParseAuth` hands out a record that is not disabled, then the text decodes to an owned
  -- credential that passes `Validate` and is not disabled itself, a plugin-owned file name is the
  -- name of the credential's principal, and the record is that credential's.
  pub parse_auth-Enabled : parse_auth go r ≡ handled a → a.disabled ≡ false → Enabled go r a
  unfolding parse_auth
  parse_auth-Enabled h n = parse_decoded-Enabled (decode_owned_credential go r.raw_json) refl h n

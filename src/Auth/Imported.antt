-- ===== src/Auth/Imported.antt =====
-- An imported credential, once it stands in its file, is handed out by `ParseAuth`.
use codex_pat.Auth.{ParseRequest, handled, parse_auth}
use codex_pat.Base.{
  Bool, Bytes, [], arith, codes, false, not, refl, same, some, sym, true, ℕ, ◌&&◌, ◌<◌, ◌∙◌, ◌∷◌,
  ◌≡◌,
}
use codex_pat.Credential.{
  Credential, fed_ramp_key, forbidden_credential_fields, has_forbidden, has_good_headers, has_raw,
  is_empty_map, is_valid, new_credential, sync_fed_ramp_header,
}
use codex_pat.Credential.AuthData.{AuthData, auth_data, auth_metadata}
use codex_pat.Credential.Checks.{Passes, is_valid_iff, validate_of_Passes}
use codex_pat.Credential.Codec.{
  credential_field_names, decode_owned_credential, delete_all, insert_all, known_fields, marshal,
  marshal_fields, owned,
}
use codex_pat.Credential.Codec.Stored.{IsReadable, decode_owned_credential-marshal, read_back}
use codex_pat.Credential.Fresh.{new_credential-Passes}
use codex_pat.Errors.{ok}
use codex_pat.FileName.{file_name, is_owned_file_for_principal}
use codex_pat.FileName.Owned.{is_owned_file_for_principal-file_name}
use codex_pat.Json.{delete, from_fields, has, insert, lookup, sort_keys, string, to_fields}
use codex_pat.Platform.{IsDigest, Platform}
use codex_pat.Text.Order.{insert_by, sort_by, text_lt}
use codex_pat.Text.Trim.{trim}
use codex_pat.Whoami.{Identity}
use codex_pat.Whoami.Identities.{IsIdentity}
use codex_pat.Whoami.Token.{IsToken}

module _ (go : Platform) (token : Bytes) (i : Identity) (now : ℕ) where
  abbrev imported : Credential
  imported = read_back go (new_credential token i now)

  raw_tests :
      (e : Bytes) (b : Bool)
      → let c = read_back go (new_credential token (record i { email = e; fed_ramp = b }) now) in
        ((not (is_empty_map c.raw) && not (has fed_ramp_key c.raw)) ≡ false)
        × ((not (is_empty_map c.raw) && has_forbidden forbidden_credential_fields c.raw) ≡ false)
  unfolding sort_keys sort_by insert_by text_lt marshal_fields known_fields new_credential
      sync_fed_ramp_header insert_all delete_all insert delete lookup has has_raw same to_fields
      from_fields credential_field_names has_forbidden
  raw_tests [] true = (refl, refl)
  raw_tests [] false = (refl, refl)
  raw_tests (c ∷ e) true = (refl, refl)
  raw_tests (c ∷ e) false = (refl, refl)

  read_back-Passes : IsToken token → IsIdentity i → 0 < now → Passes go imported
  unfolding new_credential sync_fed_ramp_header has_good_headers
  read_back-Passes t v n =
      let p = new_credential-Passes go token i now t v n in
      record {
        marker = p.marker;
        token = p.token;
        metadata = p.metadata;
        stamp = p.stamp;
        prefix = p.prefix;
        headers = p.headers;
        fed_ramp = (raw_tests i.email i.fed_ramp).0;
        no_state = (raw_tests i.email i.fed_ramp).1;
      }

  token_shown :
      (s name : Bytes)
      → ((auth_data go imported s name).disabled ≡ false)
        × (lookup (codes "access_token") (auth_data go imported s name).metadata
            ≡ some (string token))
  unfolding auth_data auth_metadata new_credential sync_fed_ramp_header lookup same
  token_shown s name = (refl, refl)

  owned_text :
      (r : ParseRequest) (c : Credential)
      → decode_owned_credential go r.raw_json ≡ owned (ok c)
      → is_valid go c ≡ true
      → is_owned_file_for_principal go r.file_name c.account_id c.chatgpt_user_id ≡ true
      → parse_auth go r ≡ handled (auth_data go c (trim r.raw_json) r.file_name)
  unfolding parse_auth
  owned_text r c d v o = ground arith

  abbrev its_name : Bytes
  its_name = file_name go i.account_id i.user_id i.email i.plan_type

  own :
      IsDigest go.sha256
      → IsIdentity i
      → is_owned_file_for_principal go its_name imported.account_id imported.chatgpt_user_id ≡ true
  unfolding new_credential sync_fed_ramp_header
  own digest v =
      is_owned_file_for_principal-file_name go digest i.account_id i.user_id i.email i.plan_type
        (λ e. v.account_ne_nil (sym v.account_field.trimmed ∙ e))
        (λ e. v.user_ne_nil (sym v.user_field.trimmed ∙ e))

  -- A credential that is made from a normal token and an accepted identity, written by `MarshalJSON`
  -- and handed to `ParseAuth` under the name that `FileName` gives it, comes back as a record that is
  -- enabled and holds the token. The digest is taken to be 32 bytes long, and the printed text and
  -- its time to be read back as they were.
  pub parse_auth-new_credential :
      IsDigest go.sha256
      → IsToken token
      → IsIdentity i
      → 0 < now
      → IsReadable go (new_credential token i now)
      → (a : AuthData) × (parse_auth go
            (record { file_name = its_name; raw_json = marshal go (new_credential token i now) })
          ≡ handled a)
        × (a.disabled ≡ false)
        × (lookup (codes "access_token") a.metadata ≡ some (string token))
  parse_auth-new_credential digest t v n readable =
      let raw = marshal go (new_credential token i now) in
      let valid =
        (is_valid_iff go imported).1 (validate_of_Passes go imported (read_back-Passes t v n)) in
      (
        auth_data go imported (trim raw) its_name,
        owned_text (record { file_name = its_name; raw_json = raw }) imported
            (decode_owned_credential-marshal go token i now readable) valid (own digest v),
        (token_shown (trim raw) its_name).0,
        (token_shown (trim raw) its_name).1,
      )

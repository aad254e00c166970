-- ===== src/Credential/Checks.antt =====
-- `Validate` passes exactly if each of its tests passes.
use codex_pat.Base.{Bool, arith, false, not, refl, true, ◌&&◌, ◌==◌, ◌↔◌, ◌≡◌}
use codex_pat.Credential.{
  Credential, fed_ramp_key, forbidden_credential_fields, has_bad_prefix, has_forbidden,
  has_good_headers, has_marker, has_metadata, is_empty_map, is_normal_token, is_valid, validate,
}
use codex_pat.Errors.{Error, Result, ok, refuse, ◌>>◌}
use codex_pat.Json.{has}
use codex_pat.Platform.{Platform}

pub record Passes (go : Platform) (c : Credential) : Type 0 where
  pub marker : has_marker go c ≡ true
  pub token : is_normal_token c.access_token ≡ true
  pub metadata : has_metadata go c ≡ true
  pub stamp : (c.validated_at == 0) ≡ false
  pub prefix : has_bad_prefix go c.prefix ≡ false
  pub headers : has_good_headers go c ≡ true
  pub fed_ramp : (not (is_empty_map c.raw) && not (has fed_ramp_key c.raw)) ≡ false
  pub no_state :
      (not (is_empty_map c.raw) && has_forbidden forbidden_credential_fields c.raw) ≡ false

module _ (go : Platform) (c : Credential) where
  pub validate_of_Passes : Passes go c → validate go c ≡ ok tt
  unfolding validate
  validate_of_Passes p =
      rw (p.marker, p.token, p.metadata, p.stamp, p.prefix, p.headers, p.fed_ramp, p.no_state)

  chain :
      (b : Bool) (e : Error) (m : Result (Unit {0}))
      → (refuse b e >> m) ≡ ok tt
      → (b ≡ false) × (m ≡ ok tt)
  chain false e m h = (refl, h)
  chain true e m h = cc

  last_test : (b : Bool) (e : Error) → refuse b e ≡ ok tt → b ≡ false
  last_test false e h = refl
  last_test true e h = cc

  pub Passes-of_validate : validate go c ≡ ok tt → Passes go c
  unfolding validate
  Passes-of_validate h =
      let (a, h1) = chain (not (has_marker go c)) _ _ h in
      let (b, h2) = chain (not (is_normal_token c.access_token)) _ _ h1 in
      let (d, h3) = chain (not (has_metadata go c)) _ _ h2 in
      let (e, h4) = chain (c.validated_at == 0) _ _ h3 in
      let (f, h5) = chain (has_bad_prefix go c.prefix) _ _ h4 in
      let (g, h6) = chain (not (has_good_headers go c)) _ _ h5 in
      let (i, h7) = chain (not (is_empty_map c.raw) && not (has fed_ramp_key c.raw)) _ _ h6 in
      record {
        marker = negated a;
        token = negated b;
        metadata = negated d;
        stamp = e;
        prefix = f;
        headers = negated g;
        fed_ramp = i;
        no_state =
            last_test (not (is_empty_map c.raw) && has_forbidden forbidden_credential_fields c.raw)
              _ h7;
      }
    where
      negated : {b : Bool} → not b ≡ false → b ≡ true
      negated {b} h = ground arith

  pub is_valid_iff : (is_valid go c ≡ true) ↔ (validate go c ≡ ok tt)
  unfolding is_valid
  is_valid_iff = (λ h. from h, λ h. rw (h, is_valid))
    where
      from : is_valid go c ≡ true → validate go c ≡ ok tt
      from h = ground arith

-- ===== src/Whoami/Identities.antt =====
-- Identities: what `decodeIdentity` guarantees of the fields that it accepts.
use codex_pat.Base.{
  Bool, Bytes, Option, [], arith, false, inl, inr, length, ltb, ne_of_same-false, none, refl, same,
  some, subst, sym, true, ◌==◌, ◌||◌, ◌∙◌, ◌≡◌, ◌≢◌, ◌≤◌, ◌⊎◌,
}
use codex_pat.Errors.{bind_ok, ok, ok_injective, plain, refuse}
use codex_pat.Platform.{Platform}
use codex_pat.Text.Trim.{trim}
use codex_pat.Text.Trim.Laws.{trim_idem}
use codex_pat.Whoami.{
  Identity, Wire, check_wire, decode_identity, decode_scanned, has_control,
  max_identity_field_bytes, max_whoami_body_bytes, normalize_identity_field, optional_email,
  required,
}

-- A field in its normal form: no white space around it, no control characters, not too long.
pub record IsIdentityField (s : Bytes) : Type 0 where
  pub trimmed : trim s ≡ s
  pub fits : length s ≤ max_identity_field_bytes
  pub plain_text : has_control s ≡ false

-- The email may be empty; nothing else may.
pub record IsIdentity (i : Identity) : Type 0 where
  pub user_field : IsIdentityField i.user_id
  pub user_ne_nil : i.user_id ≢ []
  pub account_field : IsIdentityField i.account_id
  pub account_ne_nil : i.account_id ≢ []
  pub plan_field : IsIdentityField i.plan_type
  pub plan_ne_nil : i.plan_type ≢ []
  pub email_field : IsIdentityField i.email

nil-IsIdentityField : IsIdentityField []
unfolding has_control
nil-IsIdentityField = record {
  trimmed = unfold trim in refl;
  fits = omega arith;
  plain_text = refl;
}

normalize-cases :
    (raw : Bytes) (b : Bool) {s : Bytes}
    → normalize_identity_field raw b ≡ ok s
    → ((b ≡ false) × (s ≡ []))
      ⊎ ((s ≡ trim raw)
          × (same (trim raw) [] ≡ false)
          × (ltb max_identity_field_bytes (length (trim raw)) ≡ false)
          × (has_control (trim raw) ≡ false))
unfolding normalize_identity_field
normalize-cases raw b h = ground arith

normalize-IsIdentityField :
    (raw : Bytes) (b : Bool) {s : Bytes}
    → normalize_identity_field raw b ≡ ok s
    → IsIdentityField s × (b ≡ true → s ≢ [])
normalize-IsIdentityField raw b h = elim (normalize-cases raw b h) [
  | inl (optional, e) ↦ (subst IsIdentityField (sym e) nil-IsIdentityField, λ q. cc)
  | inr (e, n, l, c) ↦ (
    subst IsIdentityField (sym e)
        (record { trimmed = trim_idem raw; fits = ground arith; plain_text = c }),
    λ _ q. ne_of_same-false (trim raw) n (sym e ∙ q),
  )
]

optional_email-IsIdentityField :
    (o : Option Bytes) {s : Bytes} → optional_email o ≡ ok s → IsIdentityField s
optional_email-IsIdentityField none h = subst IsIdentityField (ok_injective h) nil-IsIdentityField
optional_email-IsIdentityField (some e) h = (normalize-IsIdentityField e false h).0

check_wire-IsIdentity : (w : Wire) {i : Identity} → check_wire w ≡ ok i → IsIdentity i
unfolding check_wire
check_wire-IsIdentity w h =
    let (user, _, h1) = bind_ok (required w.user_id) _ h in
    let (account, _, h2) = bind_ok (required w.account_id) _ h1 in
    let (plan, _, h3) = bind_ok (required w.plan_type) _ h2 in
    let (fed_ramp, _, h4) = bind_ok (required w.fed_ramp) _ h3 in
    let (user_id, u, h5) = bind_ok (normalize_identity_field user true) _ h4 in
    let (account_id, a, h6) = bind_ok (normalize_identity_field account true) _ h5 in
    let (plan_type, p, h7) = bind_ok (normalize_identity_field plan true) _ h6 in
    let (email, e, h8) = bind_ok (optional_email w.email) _ h7 in
    let (uf, un) = normalize-IsIdentityField user true u in
    let (af, an) = normalize-IsIdentityField account true a in
    let (pf, pn) = normalize-IsIdentityField plan true p in
    subst IsIdentity (ok_injective h8) (record {
      user_field = uf;
      user_ne_nil = un refl;
      account_field = af;
      account_ne_nil = an refl;
      plan_field = pf;
      plan_ne_nil = pn refl;
      email_field = optional_email-IsIdentityField w.email e;
    })

-- Whatever the Codex Auth API answers, an accepted answer has a user, an account and a plan, and
-- all its texts are trimmed, bounded and free of control characters.
pub decode_identity-IsIdentity :
    (go : Platform) (raw : Bytes) {i : Identity} → decode_identity go raw ≡ ok i → IsIdentity i
unfolding decode_identity
decode_identity-IsIdentity go raw h =
    let (_, _, h1) =
      bind_ok
        (refuse (length raw == 0 || ltb max_whoami_body_bytes (length raw))
          (plain "whoami response size is invalid"))
        _ h in
    let (w, _, h2) = bind_ok (decode_scanned go (go.scan raw)) _ h1 in check_wire-IsIdentity w h2

-- ===== src/Whoami/Rejections.antt =====
-- Which answers of the Codex Auth API count as a rejection of the token.
use codex_pat.Base.{Bool-cases, arith, false, inl, inr, not, refl, subst, true, ℕ, ◌↔◌, ◌≡◌, ◌⊎◌}
use codex_pat.Errors.{
  Error, Result, err, err_injective, is_authentication_failure, malformed_response, no_error, ok,
  pat,
}
use codex_pat.Platform.{Platform}
use codex_pat.Whoami.{
  Identity, Reply, accepted_reply, classify_status, decode_identity, failed_reply, is_success,
  read_reply,
}

classify_rejects :
    (status : ℕ)
    → (is_authentication_failure (classify_status status) ≡ true)
      ↔ ((status ≡ 401) ⊎ (status ≡ 403))
unfolding classify_status is_authentication_failure
classify_rejects status = (λ h. ground arith, λ h. ground arith)

malformed_differs :
    (x : Error)
    → is_authentication_failure
        (pat malformed_response "Codex Auth API returned invalid account metadata" 502 false x)
      ≡ false
unfolding is_authentication_failure
malformed_differs x = refl

module _ (go : Platform) where
  -- A failed call with a status outside 200 to 299 is classified by its status; any other failed
  -- call is malformed or transient.
  failed_rejects :
      (r : Reply)
      → (is_authentication_failure (failed_reply go r) ≡ true)
        ↔ ((r.status_code ≡ 401) ⊎ (r.status_code ≡ 403))
  unfolding is_authentication_failure classify_status
  failed_rejects r = (λ h. ground arith, λ h. ground arith)

  -- If an answer is read as an error, that error is an authentication failure exactly if the status
  -- is 401 or 403, whether the call failed or not.
  pub read_reply_rejects :
      (r : Reply) {e : Error}
      → read_reply go r ≡ err e
      → (is_authentication_failure e ≡ true) ↔ ((r.status_code ≡ 401) ⊎ (r.status_code ≡ 403))
  unfolding read_reply
  read_reply_rejects r {e} h = by_failure r.failure h
    where
      Claim : Type 0
      Claim = (is_authentication_failure e ≡ true) ↔ ((r.status_code ≡ 401) ⊎ (r.status_code ≡ 403))

      of_error :
          (x : Error)
          → ((is_authentication_failure x ≡ true) ↔ ((r.status_code ≡ 401) ⊎ (r.status_code ≡ 403)))
          → ◌≡◌ {A = Result Identity} (err x) (err e)
          → Claim
      of_error x c q =
          subst
            (λ y.
              (is_authentication_failure y ≡ true)
              ↔ ((r.status_code ≡ 401) ⊎ (r.status_code ≡ 403)))
            (err_injective q) c

      accepted : accepted_reply go r ≡ err e → Claim
      accepted q = elim (Bool-cases (not (is_success r.status_code))) [
        | inl y ↦
            of_error (classify_status r.status_code) (classify_rejects r.status_code) (rw y at q)
        | inr y ↦ unread (decode_identity go r.body) (rw y at q) y
      ]
        where
          unread :
              (d : Result Identity)
              → elim d [
                | ok i ↦ ok i
                | err x ↦ err (
                    pat malformed_response "Codex Auth API returned invalid account metadata" 502
                      false x)
              ]
                ≡ err e
              → not (is_success r.status_code) ≡ false
              → Claim
          unread (ok i) z y = cc
          unread (err x) z y =
              of_error _
                (λ w. absurd (ground (arith, malformed_differs x)), λ w. absurd (ground arith)) z

      by_failure :
          (f : Error)
          → elim f [ no_error ↦ accepted_reply go r | _ ↦ err (failed_reply go r) ] ≡ err e
          → Claim
      by_failure no_error q = accepted q
      by_failure _ q = of_error (failed_reply go r) (failed_rejects r) q

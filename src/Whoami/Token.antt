-- ===== src/Whoami/Token.antt =====
-- Tokens: which texts `NormalizeToken` accepts.
use codex_pat.Base.{
  Bytes, [], arith, codes, false, has_prefix, length, ltb, ne_of_same-false, same, same-false,
  subst, sym, true, ◌↔◌, ◌≡◌, ◌≢◌, ◌≤◌,
}
use codex_pat.Errors.{ok}
use codex_pat.Text.Trim.{trim}
use codex_pat.Text.Trim.Laws.{trim_idem}
use codex_pat.Whoami.{has_control, max_token_bytes, normalize_token}

-- A token in its normal form.
pub record IsToken (t : Bytes) : Type 0 where
  pub trimmed : trim t ≡ t
  pub ne_nil : t ≢ []
  pub fits : length t ≤ max_token_bytes
  pub marked : has_prefix t (codes "at-") ≡ true
  pub plain_text : has_control t ≡ false

-- The tests of `NormalizeToken`, all passed.
module _ (raw : Bytes) where
  passed :
      {t : Bytes}
      → normalize_token raw ≡ ok t
      → (t ≡ trim raw)
        × (same (trim raw) [] ≡ false)
        × (ltb max_token_bytes (length (trim raw)) ≡ false)
        × (has_prefix (trim raw) (codes "at-") ≡ true)
        × (has_control (trim raw) ≡ false)
  unfolding normalize_token
  passed h = ground arith

  of_token : IsToken (trim raw) → normalize_token raw ≡ ok (trim raw)
  unfolding normalize_token
  of_token k =
      let small : ltb max_token_bytes (length (trim raw)) ≡ false = ground (arith, k.fits) in
      rw (same-false (trim raw) k.ne_nil, small, k.marked, k.plain_text)

  -- A text is accepted with a token as the result exactly if it trims to that token, and the token
  -- is in its normal form: not empty, not too long, with the prefix, and free of control characters.
  pub normalize_token_iff :
      (t : Bytes) → (normalize_token raw ≡ ok t) ↔ ((t ≡ trim raw) × IsToken t)
  normalize_token_iff t = (accepted, λ p. rw (p.0) (of_token (subst IsToken p.0 p.1)))
    where
      accepted : normalize_token raw ≡ ok t → (t ≡ trim raw) × IsToken t
      accepted h =
          let (e, n, l, m, c) = passed h in
          (
            e,
            subst IsToken (sym e) (record {
              trimmed = trim_idem raw;
              ne_nil = ne_of_same-false (trim raw) n;
              fits = ground arith;
              marked = m;
              plain_text = c;
            }),
          )

-- Normalising a token again changes nothing.
pub normalize_token_idem : {t : Bytes} → IsToken t → normalize_token t ≡ ok t
normalize_token_idem {t} k = (normalize_token_iff t t).1 (sym k.trimmed, k)

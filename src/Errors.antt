-- ===== src/Errors.antt =====
-- internal/pat/errors.go, and the errors that pass through the plugin.
use codex_pat.Base.{
  Bool, Bytes, Option, String, [], codes, false, if◌then◌else◌, inl, inr, none, refl, same, some,
  true, ℕ, ◌≡◌, ◌⊎◌,
}
use codex_pat.Text.Trim.{trim}

pub data ErrorKind : Type 0 where
  invalid_input authentication rejected rate_limited : ErrorKind
  transient malformed_response account_mismatch persistence : ErrorKind

-- A Go `error`. `no_error` is nil.
pub data Error : Type 0 where
  no_error : Error
  -- `errors.New`, and errors of the Go library
  plain : String → Error
  -- `fmt.Errorf` with `%w`
  wrapped : String → Error → Error
  -- `hostrpc.ResponseBodyLimitError`
  body_limit : ℕ → Error
  -- `hostrpc.RPCError`: code, message, retryable, status
  rpc : Bytes → Bytes → Bool → ℕ → Error
  -- `pat.Error`: kind, message, status, retryable, cause
  pat : ErrorKind → String → ℕ → Bool → Error → Error

pub data Result (A : Type 0) : Type 0 where
  ok : A → Result A
  err : Error → Result A

infixl 5 ◌>>=◌ ◌>>◌
abbrev pub ◌>>=◌ : {A B : Type 0} → Result A → (A → Result B) → Result B
ok a >>= f = f a
err e >>= f = err e

abbrev pub ◌>>◌ : {B : Type 0} → Result (Unit {0}) → Result B → Result B
m >> k = m >>= λ _. k

pub bind_ok :
    {A B : Type 0} (r : Result A) (next : A → Result B) {y : B}
    → (r >>= next) ≡ ok y
    → (x : A) × (r ≡ ok x) × (next x ≡ ok y)
bind_ok (err e) next q = cc
bind_ok (ok x) next q = (x, refl, q)

pub Result-cases :
    {A : Type 0} (r : Result A) → ((a : A) × (r ≡ ok a)) ⊎ ((e : Error) × (r ≡ err e))
Result-cases (ok a) = inl (a, refl)
Result-cases (err e) = inr (e, refl)

pub ok_injective : {A : Type 0} {a b : A} → ok a ≡ ok b → a ≡ b
ok_injective h = cc

pub err_injective : {A : Type 0} {x y : Error} → ◌≡◌ {A = Result A} (err x) (err y) → x ≡ y
err_injective h = cc

-- `if failed { return err }`
abbrev pub refuse : Bool → Error → Result (Unit {0})
refuse true e = err e
refuse false e = ok tt

pub record PatError : Type 0 where
  pub kind : ErrorKind
  pub message : String
  pub http_status : ℕ
  pub retryable : Bool
  pub cause : Error

-- `errors.As` with a `*pat.Error` target: the first one in the chain.
unfoldable pub as_pat : Error → Option PatError
as_pat no_error = none
as_pat (plain m) = none
as_pat (wrapped m e) = as_pat e
as_pat (body_limit n) = none
as_pat (rpc c m r s) = none
as_pat (pat k m s r e) =
    some (record { kind = k; message = m; http_status = s; retryable = r; cause = e })

-- The text of a kind.
abbrev pub kind_text : ErrorKind → String
kind_text invalid_input = "invalid_input"
kind_text authentication = "authentication_failed"
kind_text rejected = "validation_rejected"
kind_text rate_limited = "rate_limited"
kind_text transient = "transient_failure"
kind_text malformed_response = "malformed_response"
kind_text account_mismatch = "account_mismatch"
kind_text persistence = "persistence_failed"

-- `Error.Error` of a `*pat.Error`.
unfoldable pub pat_error_text : PatError → Bytes
pat_error_text e =
    let message = trim (codes e.message) in
    if same message [] then codes (kind_text e.kind) else message

-- `Error.Unwrap` of a `*pat.Error`.
abbrev pub unwrap : PatError → Error
unwrap e = e.cause

abbrev pub kind_eq : ErrorKind → ErrorKind → Bool
kind_eq invalid_input invalid_input = true
kind_eq authentication authentication = true
kind_eq rejected rejected = true
kind_eq rate_limited rate_limited = true
kind_eq transient transient = true
kind_eq malformed_response malformed_response = true
kind_eq account_mismatch account_mismatch = true
kind_eq persistence persistence = true
kind_eq _ _ = false

-- `IsKind`.
unfoldable pub is_kind : Error → ErrorKind → Bool
unfolding as_pat
is_kind e k = elim (as_pat e) [ none ↦ false | some p ↦ kind_eq p.kind k ]

-- `IsAuthenticationFailure`.
unfoldable pub is_authentication_failure : Error → Bool
unfolding is_kind
is_authentication_failure e = is_kind e authentication

-- `ErrorDetails`: kind, retryable, status.
unfoldable pub error_details : Error → ErrorKind × Bool × ℕ
unfolding as_pat
error_details e = elim (as_pat e) [
  | none ↦ (transient, false, 0)
  | some p ↦ (p.kind, p.retryable, p.http_status)
]

-- `responseBodyTooLarge`.
unfoldable pub response_body_too_large : Error → Bool
response_body_too_large no_error = false
response_body_too_large (plain m) = false
response_body_too_large (wrapped m e) = response_body_too_large e
response_body_too_large (body_limit n) = true
response_body_too_large (rpc c m r s) = false
response_body_too_large (pat k m s r e) = response_body_too_large e

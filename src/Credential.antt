-- ===== src/Credential.antt =====
-- Stored credentials (internal/pat/credential.go): the record, its construction, its changes and
-- its validation. A map of Go is an association list, and a nil map is the empty one: the program
-- tells them apart nowhere.
pub mod Codec
pub mod Checks
pub mod Fresh
pub mod AuthData
use codex_pat.Base.{
  Bool, Bytes, List, Option, [], codes, contains_byte, false, if◌then◌else◌, length, none, not,
  same, some, true, ℕ, ◌&&◌, ◌==◌, ◌||◌, ◌∷◌,
}
use codex_pat.Errors.{Error, Result, err, ok, plain, refuse, ◌>>=◌, ◌>>◌}
use codex_pat.Json.{Dict, Json, delete, has, insert, lookup, null}
use codex_pat.Platform.{Platform}
use codex_pat.Text.Case.{equal_fold, to_lower}
use codex_pat.Text.Trim.{trim, trim_set}
use codex_pat.Whoami.{Identity, normalize_token}

abbrev pub provider_codex : Bytes
provider_codex = codes "codex"

abbrev pub auth_kind_pat : Bytes
auth_kind_pat = codes "pat"

abbrev pub validation_valid : Bytes
validation_valid = codes "valid"

abbrev pub validation_invalid : Bytes
validation_invalid = codes "invalid"

abbrev pub validation_mismatch : Bytes
validation_mismatch = codes "account_mismatch"

abbrev pub fed_ramp_header : Bytes
fed_ramp_header = codes "X-OpenAI-Fedramp"

abbrev pub fed_ramp_key : Bytes
fed_ramp_key = codes "chatgpt_account_is_fedramp"

-- `forbiddenCredentialFields`.
abbrev pub forbidden_credential_fields : List Bytes
forbidden_credential_fields =
    codes "api_key"
    ∷ codes "refresh_token"
    ∷ codes "id_token"
    ∷ codes "expires_at"
    ∷ codes "expiry"
    ∷ codes "last_refresh"
    ∷ []

-- A time is a number of nanoseconds since the zero time; the time zone is left out, since the
-- program compares instants and writes times in UTC.
pub record Credential : Type 0 where
  pub type_name : Bytes
  pub auth_kind : Bytes
  pub access_token : Bytes
  pub account_id : Bytes
  pub chatgpt_user_id : Bytes
  pub email : Bytes
  pub plan_type : Bytes
  pub is_fed_ramp : Bool
  pub validated_at : ℕ
  pub validation_state : Bytes
  pub disabled : Bool
  pub headers : Dict Bytes
  pub base_url : Bytes
  pub proxy_url : Bytes
  pub prefix : Bytes
  pub priority : Option Json
  pub note : Bytes
  pub websockets : Bool
  -- the object that the credential was decoded from
  pub raw : Dict Json

-- `Credential{}`.
abbrev pub empty_credential : Credential
empty_credential = record {
  type_name = [];
  auth_kind = [];
  access_token = [];
  account_id = [];
  chatgpt_user_id = [];
  email = [];
  plan_type = [];
  is_fed_ramp = false;
  validated_at = 0;
  validation_state = [];
  disabled = false;
  headers = [];
  base_url = [];
  proxy_url = [];
  prefix = [];
  priority = none;
  note = [];
  websockets = false;
  raw = [];
}

-- `syncFedRAMPHeader`.
unfoldable pub sync_fed_ramp_header : Credential → Credential
sync_fed_ramp_header c = record c {
  headers =
      if c.is_fed_ramp
      then insert fed_ramp_header (codes "true") c.headers
      else delete fed_ramp_header c.headers;
}

-- `NewCredential`.
unfoldable pub new_credential : Bytes → Identity → ℕ → Credential
new_credential token identity now = sync_fed_ramp_header (record empty_credential {
  type_name = provider_codex;
  auth_kind = auth_kind_pat;
  access_token = token;
  account_id = identity.account_id;
  chatgpt_user_id = identity.user_id;
  email = identity.email;
  plan_type = identity.plan_type;
  is_fed_ramp = identity.fed_ramp;
  validated_at = now;
  validation_state = validation_valid;
})

-- `ApplyIdentity`.
unfoldable pub apply_identity : Credential → Identity → ℕ → Credential
apply_identity c identity now = sync_fed_ramp_header (record c {
  chatgpt_user_id = trim identity.user_id;
  email = trim identity.email;
  plan_type = trim identity.plan_type;
  is_fed_ramp = identity.fed_ramp;
  validated_at = now;
  validation_state = validation_valid;
  disabled = false;
})

-- `Disable`.
unfoldable pub disable : Credential → Bytes → ℕ → Credential
disable c state now = record c {
  disabled = true;
  validation_state = trim state;
  validated_at = now;
}

-- `hasRaw`.
unfoldable pub has_raw : Credential → Bytes → Bool
has_raw c key = has key c.raw

abbrev pub or_empty : Option Bytes → Bytes
or_empty none = []
or_empty (some s) = s

-- A value that `Validate` counts as forbidden state: one that is there and is not null.
abbrev pub is_state : Option Json → Bool
is_state none = false
is_state (some null) = false
is_state (some v) = true

unfoldable pub has_forbidden : List Bytes → Dict Json → Bool
has_forbidden [] raw = false
has_forbidden (key ∷ keys) raw = is_state (lookup key raw) || has_forbidden keys raw

-- `normalize_token` gives the token back as it is.
unfoldable pub is_normal_token : Bytes → Bool
is_normal_token token = elim (normalize_token token) [ ok t ↦ same t token | err e ↦ false ]

abbrev pub is_empty_map {ℓ} : {A : Type ℓ} → List A → Bool
is_empty_map [] = true
is_empty_map (x ∷ xs) = false

module _ (go : Platform) where
  -- The tests of `Validate`, each with the failure that it reports.
  abbrev has_marker : Credential → Bool
  has_marker c =
      same (to_lower go (trim c.type_name)) provider_codex
      && same (to_lower go (trim c.auth_kind)) auth_kind_pat

  abbrev has_metadata : Credential → Bool
  has_metadata c =
      not (same (trim c.account_id) [])
      && not (same (trim c.chatgpt_user_id) [])
      && not (same (trim c.plan_type) [])

  unfoldable pub has_bad_prefix : Bytes → Bool
  has_bad_prefix raw =
      let prefix = trim_set (codes "/") (trim raw) in
      not (same prefix []) && contains_byte prefix b'/'

  unfoldable pub has_good_headers : Credential → Bool
  has_good_headers c =
      if c.is_fed_ramp
      then length c.headers == 1
        && equal_fold go (trim (or_empty (lookup fed_ramp_header c.headers))) (codes "true")
      else length c.headers == 0

  abbrev header_failure : Bool → Error
  header_failure true = plain "credential FedRAMP header is invalid"
  header_failure false = plain "credential contains unsupported custom headers"

  -- `Validate`.
  unfoldable pub validate : Credential → Result (Unit {0})
  validate c = do
    refuse (not (has_marker c)) (plain "credential marker is invalid")
    refuse (not (is_normal_token c.access_token)) (plain "credential token is invalid")
    refuse (not (has_metadata c)) (plain "credential account metadata is incomplete")
    refuse (c.validated_at == 0) (plain "credential validation timestamp is missing")
    refuse (has_bad_prefix c.prefix) (plain "credential prefix is invalid")
    refuse (not (has_good_headers c)) (header_failure c.is_fed_ramp)
    refuse (not (is_empty_map c.raw) && not (has fed_ramp_key c.raw))
        (plain "credential FedRAMP metadata is missing")
    refuse (not (is_empty_map c.raw) && has_forbidden forbidden_credential_fields c.raw)
        (plain "credential contains forbidden OAuth or API-key state")

  -- `credential.Validate() == nil`.
  unfoldable pub is_valid : Credential → Bool
  is_valid c = elim (validate c) [ ok _ ↦ true | err e ↦ false ]

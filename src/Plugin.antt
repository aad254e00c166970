-- ===== src/Plugin.antt =====
-- The plugin's dispatcher (internal/plugin): the registration, the lifecycle check, and what a
-- dispatcher is made of.
pub mod Envelope
pub mod Dispatch
pub mod Schema
pub mod Keeps
use codex_pat.Auth.{ParseResponse}
use codex_pat.Base.{
  Bool, Bytes, Option, String, [], all, codes, if◌then◌else◌, ltb, none, not, same, some, true, ℕ,
  ◌++◌, ◌-◌, ◌^◌, ◌||◌, ◌∷◌,
}
use codex_pat.Credential.AuthData.{AuthData, digits_value, is_digit, is_empty_text}
use codex_pat.Errors.{Result}
use codex_pat.Json.{Dict, Json, Scan, null, number, single}
use codex_pat.Management.Assets.{register}
use codex_pat.Management.Handler.{handle}
use codex_pat.Platform.{Platform}
use codex_pat.Text.Digits.{decimal}
use codex_pat.Text.Struct.{decode_struct}
use codex_pat.Text.Trim.{trim}

-- The methods of `pluginabi` that `Dispatch` names, and any other.
pub data Method : Type 0 where
  plugin_register plugin_reconfigure auth_identifier auth_parse auth_login_start : Method
  auth_login_poll auth_refresh management_register management_handle other : Method

-- `registration`.
pub record Registration : Type 0 where
  pub schema_version : ℕ
  pub name : Bytes
  pub version : Bytes
  pub author : Bytes
  pub git_hub_repository : Bytes
  pub auth_provider : Bool
  pub management_api : Bool

-- `ManagementRequest`, without the headers and the query.
pub record ManagementRequest : Type 0 where
  pub method : Bytes
  pub path : Bytes
  pub body : Bytes
  pub host_callback_id : Bytes

-- What `Dispatch` answers with: the value for `successEnvelope`.
pub data Answer (L A : Type 0) : Type 0 where
  registered : Registration → Answer L A
  identified : Bytes → Answer L A
  parsed : ParseResponse → Answer L A
  refreshed : AuthData → Answer L A
  listed : L → Answer L A
  managed : A → Answer L A

-- A call of `successEnvelope`, or of `errorEnvelope` with the code, the message, the retryable mark
-- and the status.
pub data PluginResponse (A : Type 0) : Type 0 where
  success : A → PluginResponse A
  failure : String → Bytes → Bool → ℕ → PluginResponse A

-- What a call into the management may come to: a panic is `none`.
abbrev pub Attempted : Type 0 → Type 0 → Type 0
Attempted W A = W → Option (Result A) × W

-- `Management`, of which `L` is the registration and `A` an answer.
pub record Management (W L A : Type 0) : Type 0 where
  pub register : Attempted W L
  pub handle : ManagementRequest → Attempted W A

-- `Dispatcher`; a management that is nil is `none`.
pub record PluginDispatcher (W L A : Type 0) : Type 0 where
  pub version : Bytes
  pub management : Option (Management W L A)

-- `NewDispatcher`.
unfoldable pub new_plugin_dispatcher :
    {W L A : Type 0} → Bytes → Option (Management W L A) → PluginDispatcher W L A
new_plugin_dispatcher version management = record {
  version = trim version;
  management = management;
}

abbrev pub min_host_schema_version : ℕ
min_host_schema_version = 2

abbrev pub max_host_schema_version : ℕ
max_host_schema_version = 3

abbrev pub plugin_schema_version : ℕ
plugin_schema_version = 2

-- `newRegistration`.
unfoldable pub new_registration : Bytes → Registration
new_registration raw_version = record {
  schema_version = plugin_schema_version;
  name = codes "Codex PAT";
  version = if same (trim raw_version) [] then codes "dev" else trim raw_version;
  author = codes "Ca11back";
  git_hub_repository = codes "https://github.com/Ca11back/codex-pat";
  auth_provider = true;
  management_api = true;
}

-- What `validateLifecycleRequest` returns: nil, `errInvalidLifecycleRequest`, or the error that
-- names the version.
pub data Lifecycle : Type 0 where
  supported : Lifecycle
  invalid_request : Lifecycle
  unsupported : ℕ → Lifecycle

-- The message of the error that names a version, a number of 32 bits.
abbrev pub unsupported_message : ℕ → Bytes
unsupported_message v =
    codes "host plugin schema version " ++ decimal 10 v (codes " is not supported")

-- A text without content stands for the empty object.
abbrev pub or_empty_object : Bytes → Bytes
or_empty_object raw = if same (trim raw) [] then codes "{}" else raw

-- `decodeRequest`, by the decoding of the type; `none` is an error.
abbrev pub decode_request : {B : Type 0} → (Bytes → Option B) → Bytes → Option B
decode_request read raw = read (or_empty_object raw)

abbrev version_table : Dict (Unit {0})
version_table = (codes "schema_version", tt) ∷ []

-- The value of a number's text as a `uint32`; `none` is a type error.
abbrev uint32_of : Bytes → Option ℕ
uint32_of n =
    if is_empty_text n || not (all is_digit n) || ltb (2 ^ 32 - 1) (digits_value 0 n)
    then none
    else some (digits_value 0 n)

abbrev assign_version : Unit {0} → Json → ℕ → Option ℕ
assign_version key null old = some old
assign_version key (number n) old = uint32_of n
assign_version key _ old = none

abbrev check_version : Option ℕ → Lifecycle
check_version none = invalid_request
check_version (some v) =
    if ltb v min_host_schema_version || ltb max_host_schema_version v
    then unsupported v
    else supported

module _ (go : Platform) where
  abbrev pub unmarshal_version : Scan → Option ℕ
  unmarshal_version (single j) = decode_struct go version_table assign_version j 0
  unmarshal_version _ = none

  -- `validateLifecycleRequest`.
  unfoldable pub validate_lifecycle_request : Bytes → Lifecycle
  validate_lifecycle_request raw = check_version (unmarshal_version (go.scan (or_empty_object raw)))

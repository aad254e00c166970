-- ===== src/Tests/Machine.antt =====
-- A small machine and host for the examples: texts are named by their first letter, the digest is
-- constant, and the host stores what it is given.
use codex_pat.Base.{
  Bytes, [], arith, codes, false, if◌then◌else◌, refl, same, some, suc, true, zero, ℕ, ◌++◌, ◌+◌,
  ◌==◌, ◌∷◌,
}
use codex_pat.Credential.{
  Credential, auth_kind_pat, empty_credential, provider_codex, validation_valid,
}
use codex_pat.Errors.{no_error, ok}
use codex_pat.Host.{FileEntry, Host}
use codex_pat.Json.{Fields, Scan, boolean, end, field, malformed, number, object, single, string}
use codex_pat.Platform.{IsDigest, Platform}
use codex_pat.Service.{Settings}
use codex_pat.Whoami.{Identity}

abbrev zeros : ℕ → Bytes
zeros zero = []
zeros (suc n) = 0 ∷ zeros n

-- The answer of the Codex Auth API.
abbrev pub whoami_fields : Fields
whoami_fields = field (codes "chatgpt_user_id") (string (codes " user-1 ")) (
    field (codes "chatgpt_account_id") (string (codes "account-1")) (
      field (codes "chatgpt_plan_type") (string (codes "plus"))
        (field (codes "chatgpt_account_is_fedramp") (boolean false) end)))

-- A stored credential.
abbrev pub credential_fields : Fields
credential_fields = field (codes "type") (string (codes "codex")) (
    field (codes "auth_kind") (string (codes "pat")) (
      field (codes "access_token") (string (codes "at-1")) (
        field (codes "account_id") (string (codes "account-1")) (
          field (codes "chatgpt_user_id") (string (codes "user-1")) (
            field (codes "plan_type") (string (codes "plus")) (
              field (codes "chatgpt_account_is_fedramp") (boolean false)
                (field (codes "validated_at") (string (codes "t")) end)))))))

-- `w` is the answer, `c` the credential, `v` a request with a schema version.
abbrev scan_letter : Bytes → Scan
scan_letter [] = malformed
scan_letter (c ∷ s) =
    if c == b'w'
    then single (object whoami_fields)
    else if c == b'c'
    then single (object credential_fields)
    else if c == b'v'
    then single (object (field (codes "schema_version") (number (codes "2")) end))
    else malformed

abbrev pub machine : Platform
machine = record {
  lower_wide = λ s. s;
  upper_wide = λ s. s;
  fold_wide = λ s t. same s t;
  sha256 = λ s. zeros 32;
  parse_time = λ s. some 1;
  format_time = λ n. codes "t";
  format_seconds = λ n. codes "t";
  parse_url = λ s. some (record {
    scheme = codes "https";
    opaque = [];
    has_user = false;
    host = codes "auth.openai.com";
    path = codes "/api/accounts";
    raw_path = [];
    force_query = false;
    raw_query = [];
    fragment = [];
    raw_fragment = [];
  });
  url_text = λ u. u.host ++ u.path;
  scan = scan_letter;
  json_text = λ j. codes "c";
  deep_equal = λ i j. true;
}

pub machine-IsDigest : IsDigest machine.sha256
machine-IsDigest = record { length_digest = λ s. refl; digest_bytes = λ s. ground arith }

abbrev pub zero_name : Bytes
zero_name = codes "codex-pat-000000000000000000000000-plus.json"

abbrev pub zero_file : FileEntry
zero_file = record {
  name = zero_name;
  type_name = codes "codex";
  provider = [];
  auth_index = codes "7";
  runtime_only = false;
  disabled = false;
  unavailable = false;
  mod_time = 1;
  updated_at = 1;
}

-- A host that answers the Codex Auth API's calls with a status and the letter `w`.
abbrev host_with : ℕ → Host
host_with status = record {
  World = ℕ;
  http_do_limited =
      λ r limit w. (record { status_code = status; body = codes "w"; failure = no_error }, w);
  auth_list = λ w. (ok [], w);
  auth_get = λ i w. (ok (record { name = zero_name; json = codes "c" }), w);
  auth_save = λ n p w. (ok (record { name = n; path = codes "/auths/" ++ n }), w + 1);
  has_runtime = false;
  auth_get_runtime = λ i w. (ok zero_file, w);
  lstat = λ p w. (ok (record { is_symlink = false; is_regular = true; mod_time = 1 }), w);
  read_file = λ p w. (ok (codes "c"), w);
  replace_file = λ p s w. (ok tt, w);
  time_now = λ w. 10_000_000_000;
  wait = λ n w. (ok tt, w);
}

abbrev pub live_host : Host
live_host = host_with 200

abbrev pub limited_host : Host
limited_host = host_with 429

abbrev pub service : Settings
service = record {
  version = codes "1";
  base_url = [];
  timeout = 0;
  poll_interval = 0;
  stable_window = 0;
}

abbrev pub identity : Identity
identity = record {
  user_id = codes "user-1";
  account_id = codes "account-1";
  plan_type = codes "plus";
  email = [];
  fed_ramp = false;
}

-- A new credential, written out.
abbrev pub credential : Credential
credential = record empty_credential {
  type_name = provider_codex;
  auth_kind = auth_kind_pat;
  access_token = codes "at-1";
  account_id = codes "account-1";
  chatgpt_user_id = codes "user-1";
  plan_type = codes "plus";
  validated_at = 1;
  validation_state = validation_valid;
}

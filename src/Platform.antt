-- ===== src/Platform.antt =====
-- What the plugin takes from the Go library and is not written out in this model: the Unicode
-- tables, SHA-256, URLs, the JSON scanner and printer, and the text form of times. Each is a parameter of what uses it.
use codex_pat.Base.{All, Bool, Bytes, Option, length, ℕ, ◌<◌, ◌≡◌}
use codex_pat.Json.{Json, Scan}

-- `url.URL`
pub record Url : Type 0 where
  pub scheme : Bytes
  pub opaque : Bytes
  pub has_user : Bool
  pub host : Bytes
  pub path : Bytes
  pub raw_path : Bytes
  pub force_query : Bool
  pub raw_query : Bytes
  pub fragment : Bytes
  pub raw_fragment : Bytes

pub record Platform : Type 0 where
  -- `strings.ToLower` of a text with a byte above 127
  pub lower_wide : Bytes → Bytes
  pub upper_wide : Bytes → Bytes
  -- `strings.EqualFold` from the first position where either text has such a byte
  pub fold_wide : Bytes → Bytes → Bool
  -- `sha256.New`, `Write`, `Sum(nil)`
  pub sha256 : Bytes → Bytes
  -- `time.Time` as nanoseconds since the zero time: `UnmarshalJSON` and `Format(RFC3339Nano)`
  pub parse_time : Bytes → Option ℕ
  pub format_time : ℕ → Bytes
  -- `Format(RFC3339)`
  pub format_seconds : ℕ → Bytes
  -- `url.Parse` and `URL.String`
  pub parse_url : Bytes → Option Url
  pub url_text : Url → Bytes
  -- the values in a JSON text, and `json.Marshal` of a value
  pub scan : Bytes → Scan
  pub json_text : Json → Bytes
  -- `reflect.DeepEqual` of the values that two JSON values are decoded into
  pub deep_equal : Json → Json → Bool

-- A SHA-256 digest is 32 bytes.
pub record IsDigest (sha256 : Bytes → Bytes) : Type 0 where
  pub length_digest : (s : Bytes) → length (sha256 s) ≡ 32
  pub digest_bytes : (s : Bytes) → All (λ c. c < 256) (sha256 s)

-- ===== src/HostRpc/Client.antt =====
-- The typed wrappers of internal/hostrpc/client.go: each marshals a request, makes the raw call, and
-- decodes the envelope of the answer. The method names, the base64 text that `encoding/json` writes
-- for bytes, and the decoding of the SDK's response types are parameters.
pub mod Asks
pub mod Balance
pub mod Limited
use codex_pat.Base.{
  Bool, Bytes, List, Option, [], codes, false, if◌then◌else◌, map, none, same, some, ℕ, ◌∷◌,
}
use codex_pat.Errors.{err, plain, wrapped}
use codex_pat.Exec.{Exec, lift, or_raise, raise, ◌>>=◌}
use codex_pat.Host.{FileEntry, PhysicalFile, SavedFile}
use codex_pat.HostRpc.Envelope.{Envelope, decode_envelope}
use codex_pat.HostRpc.Stream.{Chunk, Opened}
use codex_pat.Json.{
  Dict, Fields, Json, Scan, array, end, field, item, nothing, null, object, single, sort_keys,
  string, to_fields,
}
use codex_pat.Platform.{Platform}
use codex_pat.Text.Trim.{trim}
use codex_pat.Whoami.{Request}

-- `pluginapi.HTTPResponse`, without the headers.
pub record HttpResponse : Type 0 where
  pub status_code : ℕ
  pub body : Bytes

pub record Sdk : Type 0 where
  pub method_host_http_do : Bytes
  pub method_host_http_do_stream : Bytes
  pub method_host_http_stream_read : Bytes
  pub method_host_http_stream_close : Bytes
  pub method_host_auth_list : Bytes
  pub method_host_auth_get : Bytes
  pub method_host_auth_get_runtime : Bytes
  pub method_host_auth_save : Bytes
  pub method_host_log : Bytes
  pub base64 : Bytes → Bytes
  pub read_envelope : Bytes → Option Envelope
  pub read_http_response : Bytes → Option HttpResponse
  pub read_stream_response : Bytes → Option Opened
  pub read_stream_chunk : Bytes → Option Chunk
  pub read_files : Bytes → Option (List FileEntry)
  pub read_physical_file : Bytes → Option PhysicalFile
  pub read_runtime : Bytes → Option FileEntry
  pub read_saved_file : Bytes → Option SavedFile

-- A field with `omitempty`, and the fields behind it.
abbrev pub text_field : Bytes → Bytes → Fields → Fields
text_field key value rest = if same value [] then rest else field key (string value) rest

abbrev pub callback_field : Bytes → Fields → Fields
callback_field id rest = text_field (codes "host_callback_id") (trim id) rest

-- `cloneHeader`, as it is marshalled: a map of lists of texts.
unfoldable pub header_json : Dict Bytes → Json
header_json headers =
    object (to_fields (sort_keys (map (λ h. (h.0, array (item (string h.1) nothing))) headers)))

abbrev pub headers_field : Dict Bytes → Fields → Fields
headers_field [] rest = rest
headers_field (h ∷ hs) rest = field (codes "headers") (header_json (h ∷ hs)) rest

-- `cloneFields`, as it is marshalled with `omitempty`.
abbrev pub log_fields : Dict Json → Fields
log_fields [] = end
log_fields (f ∷ fs) = field (codes "fields") (object (to_fields (sort_keys (f ∷ fs)))) end

-- `Client.call`, which is nil where there is no bridge, and `ctx.Done`.
pub record Client (W : Type 0) : Type 0 where
  pub call : Option (Bytes → Bytes → Exec W Bytes)
  pub cancelled : W → Bool

module _ (go : Platform) (sdk : Sdk) {W : Type 0} (client : Client W) where
  abbrev pub call_host :
      {A : Type 0}
      → (Bytes → Bytes → Exec W Bytes)
      → Bytes
      → (Bytes → Option A)
      → A
      → Option Bytes
      → Exec W A
  call_host call method read zero_value none =
      raise (wrapped "marshal host callback request" (plain "json error"))
  call_host call method read zero_value (some body) =
      or_raise (wrapped "call host callback") (call method body) >>= λ raw.
      lift (decode_envelope sdk.read_envelope read zero_value raw)

  -- `Client.invoke`: the request is its JSON text, or `none` if it cannot be marshalled; `read`
  -- decodes a result, and `zero_value` is what the response holds before.
  unfoldable pub invoke_method :
      {A : Type 0} → Bytes → Option Bytes → (Bytes → Option A) → A → Exec W A
  invoke_method method request read zero_value = elim client.call [
    | none ↦ raise (plain "host callback bridge is unavailable")
    | some call ↦ λ w.
        if client.cancelled w
        then (err (plain "context done"), w)
        else call_host call method read zero_value request w
  ]

  abbrev pub request_text : Fields → Option Bytes
  request_text fields = some (go.json_text (object fields))

  -- `hostHTTPRequest`.
  unfoldable pub host_http_request : Bytes → Request → Fields
  host_http_request id r = callback_field id (
      text_field (codes "method") r.method (
        text_field (codes "url") r.url
          (headers_field r.headers (text_field (codes "body") (sdk.base64 r.body) end))))

  -- `HTTPDo`.
  unfoldable pub http_do : Bytes → Request → Exec W HttpResponse
  http_do id r =
      invoke_method sdk.method_host_http_do (request_text (host_http_request id r))
        sdk.read_http_response (record { status_code = 0; body = [] })

  -- `AuthList`.
  unfoldable pub auth_list : Bytes → Exec W (List FileEntry)
  auth_list id =
      invoke_method sdk.method_host_auth_list (request_text (callback_field id end)) sdk.read_files
        []

  -- `hostAuthGetRequest`.
  unfoldable pub host_auth_get_request : Bytes → Bytes → Fields
  host_auth_get_request id auth_index =
      callback_field id (field (codes "auth_index") (string (trim auth_index)) end)

  abbrev no_file : PhysicalFile
  no_file = record { name = []; json = [] }

  abbrev no_entry : FileEntry
  no_entry = record {
    name = [];
    type_name = [];
    provider = [];
    auth_index = [];
    runtime_only = false;
    disabled = false;
    unavailable = false;
    mod_time = 0;
    updated_at = 0;
  }

  -- `AuthGet`.
  unfoldable pub auth_get : Bytes → Bytes → Exec W PhysicalFile
  auth_get id auth_index =
      invoke_method sdk.method_host_auth_get (request_text (host_auth_get_request id auth_index))
        sdk.read_physical_file no_file

  -- `AuthGetRuntime`.
  unfoldable pub auth_get_runtime : Bytes → Bytes → Exec W FileEntry
  auth_get_runtime id auth_index =
      invoke_method sdk.method_host_auth_get_runtime
        (request_text (host_auth_get_request id auth_index)) sdk.read_runtime no_entry

  -- `hostAuthSaveRequest` as its JSON text: a raw message must be one JSON value, and a nil one is
  -- written as null.
  abbrev pub save_text : Bytes → Bytes → Json → Option Bytes
  save_text id name value = request_text (
      callback_field id
        (field (codes "name") (string (trim name)) (field (codes "json") value end)))

  abbrev pub save_scanned : Bytes → Bytes → Scan → Option Bytes
  save_scanned id name (single value) = save_text id name value
  save_scanned id name _ = none

  unfoldable pub host_auth_save_request : Bytes → Bytes → Bytes → Option Bytes
  host_auth_save_request id name [] = save_text id name null
  host_auth_save_request id name (c ∷ s) = save_scanned id name (go.scan (c ∷ s))

  -- `AuthSave`.
  unfoldable pub auth_save : Bytes → Bytes → Bytes → Exec W SavedFile
  auth_save id name raw =
      invoke_method sdk.method_host_auth_save (host_auth_save_request id name raw)
        sdk.read_saved_file (record { name = []; path = [] })

  -- `Log`: the answer's result is not looked at.
  unfoldable pub log : Bytes → Bytes → Dict Json → Exec W (Unit {0})
  log id level fields =
      invoke_method sdk.method_host_log
        (request_text (
          callback_field id (
            text_field (codes "level") (trim level)
              (field (codes "message") (string (codes "codex-pat")) (log_fields fields)))))
        (λ raw. some tt) tt

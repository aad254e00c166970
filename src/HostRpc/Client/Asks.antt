-- ===== src/HostRpc/Client/Asks.antt =====
-- The wrappers over the native bridge: what the host is asked, and what is left in memory. The
-- bridge is `rawHostCall` (cmd/codex-pat/abi.go).
use codex_pat.Abi.HostCall.{answer, raw_host_call}
use codex_pat.Abi.HostCall.Asked.{Asked, Copies, raw_host_call_asks}
use codex_pat.Abi.Memory.{HostApi, IsAllocator, Memory}
use codex_pat.Base.{
  All, Bool, Bytes, Option, [], codes, false, if◌then◌else◌, none, refl, some, some_injective,
  subst, sym, true, ◌==◌, ◌∷◌, ◌≡◌, ◌≢◌,
}
use codex_pat.Errors.{Result, err, ok, plain}
use codex_pat.Exec.{Exec, lift, or_raise_ok, raise, then_ok}
use codex_pat.Host.{SavedFile}
use codex_pat.HostRpc.Client.{
  Client, Sdk, auth_save, call_host, callback_field, host_auth_save_request, invoke_method,
  save_scanned, save_text,
}
use codex_pat.HostRpc.Envelope.{decode_envelope}
use codex_pat.Json.{
  Json, Scan, end, field, malformed, object, single, string, trailing_garbage, trailing_value,
}
use codex_pat.Platform.{Platform}
use codex_pat.Text.Trim.{trim}

module _ (go : Platform) (sdk : Sdk) (m : Memory) (api : Option (HostApi m))
    (cancelled : m.World → Bool) where
  -- `hostrpc.New(rawHostCall)`.
  abbrev pub native_client : Client m.World
  native_client = record { call = some (raw_host_call m api); cancelled = cancelled }

  call_host_ok :
      {A : Type 0} (call : Bytes → Bytes → Exec m.World Bytes) (method : Bytes)
      (read : Bytes → Option A) (zero_value : A) (request : Option Bytes) (w : m.World) {a : A}
      → (call_host go sdk native_client call method read zero_value request w).0 ≡ ok a
      → (body : Bytes) × (raw : Bytes) × (request ≡ some body)
        × ((call method body w).0 ≡ ok raw)
        × (decode_envelope sdk.read_envelope read zero_value raw ≡ ok a)
  unfolding raise lift
  call_host_ok call method read zero_value none w h = cc
  call_host_ok call method read zero_value (some body) w h =
      let (raw, e, d) = then_ok _ _ w h in (body, raw, refl, or_raise_ok _ _ w e, d)

  -- A wrapper that succeeds has asked the host what it was to ask: its context is live, its request
  -- has a JSON text, the host was called with the method and that text, and the result is what the
  -- host's answer decodes to. The method has no 0 in it, and cgo's copies hold what is copied.
  pub invoke_method_asks :
      (c : IsAllocator m) (k : Copies m) {A : Type 0} (method : Bytes) (request : Option Bytes)
      (read : Bytes → Option A) (zero_value : A) (w : m.World) {a : A}
      → All (λ x. x == 0 ≡ false) method
      → (invoke_method go sdk native_client method request read zero_value w).0 ≡ ok a
      → (body : Bytes) × (raw : Bytes) × (cancelled w ≡ false)
        × (request ≡ some body)
        × Asked m api method body raw
        × (decode_envelope sdk.read_envelope read zero_value raw ≡ ok a)
  unfolding invoke_method
  invoke_method_asks c k {A} method request read zero_value w {a} z h =
      by_context (cancelled w) refl h
    where
      by_context :
          (t : Bool)
          → cancelled w ≡ t
          → (if◌then◌else◌ {A = Result A × m.World} t
              (err (plain "context done"), w)
              (call_host go sdk native_client
                (raw_host_call m api)
                method
                read
                zero_value
                request
                w)).0
            ≡ ok a
          → (body : Bytes) × (raw : Bytes) × (cancelled w ≡ false)
            × (request ≡ some body)
            × Asked m api method body raw
            × (decode_envelope sdk.read_envelope read zero_value raw ≡ ok a)
      by_context true e h = cc
      by_context false e h =
          let (body, raw, q, r, d) =
            call_host_ok (raw_host_call m api) method read zero_value request w h in
          (body, raw, e, q, raw_host_call_asks m c k api method body raw w z r, d)

  save_request :
      (id name raw body : Bytes)
      → raw ≢ []
      → host_auth_save_request go sdk native_client id name raw ≡ some body
      → (value : Json) × (go.scan raw ≡ single value)
        × (save_text go sdk native_client id name value ≡ some body)
  unfolding host_auth_save_request
  save_request id name [] body n h = absurd (n refl)
  save_request id name (c ∷ s) body n h = by_scan (go.scan (c ∷ s)) refl h
    where
      by_scan :
          (r : Scan)
          → go.scan (c ∷ s) ≡ r
          → save_scanned go sdk native_client id name r ≡ some body
          → (value : Json) × (go.scan (c ∷ s) ≡ single value)
            × (save_text go sdk native_client id name value ≡ some body)
      by_scan (single value) e h = (value, e, h)
      by_scan malformed e h = cc
      by_scan (trailing_value v) e h = cc
      by_scan (trailing_garbage v) e h = cc

  -- If `AuthSave` over the native bridge succeeds with a text that is not empty, that text is one
  -- JSON value, and the host was called with the saving method and the JSON text of an object of the
  -- trimmed callback, the trimmed name and that value. The method has no 0 in it, and cgo's copies
  -- hold what is copied.
  pub auth_save_asks :
      (c : IsAllocator m) (k : Copies m) (id name raw : Bytes) (w : m.World) {saved : SavedFile}
      → All (λ x. x == 0 ≡ false) sdk.method_host_auth_save
      → raw ≢ []
      → (auth_save go sdk native_client id name raw w).0 ≡ ok saved
      → (value : Json) × (answer : Bytes) × (go.scan raw ≡ single value)
        × Asked m api sdk.method_host_auth_save
            (go.json_text (
              object (
                callback_field id
                  (field (codes "name") (string (trim name)) (field (codes "json") value end)))))
            answer
  unfolding auth_save
  auth_save_asks c k id name raw w z n h =
      let (body, answer, _, e, asked, _) = invoke_method_asks c k _ _ _ _ w z h in
      let (value, s, t) = save_request id name raw body n e in
      (
        value,
        answer,
        s,
        subst (λ b. Asked m api sdk.method_host_auth_save b answer) (sym (some_injective t)) asked,
      )

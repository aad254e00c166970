-- ===== src/HostRpc/Envelope.antt =====
-- Envelopes (internal/hostrpc/envelope.go, `Client.invoke`). The struct `pluginabi.Envelope` and
-- its decoding belong to the SDK, and the raw call to the native bridge: they are parameters.
use codex_pat.Base.{
  Bool, Bytes, Option, [], arith, codes, false, if◌then◌else◌, none, not, refl, same, some, true, ℕ,
  ◌&&◌, ◌++◌, ◌∷◌, ◌≡◌,
}
use codex_pat.Errors.{Error, Result, err, ok, plain, rpc, wrapped}
use codex_pat.Text.Trim.{trim}

-- `pluginabi.Error`.
pub record Fault : Type 0 where
  pub code : Bytes
  pub message : Bytes
  pub retryable : Bool
  pub http_status : ℕ

-- `pluginabi.Envelope`; a nil error is `none`, and a missing result is the empty text.
pub record Envelope : Type 0 where
  pub is_ok : Bool
  pub result : Bytes
  pub fault : Option Fault

abbrev fault_error : Option Fault → Error
fault_error none = rpc (codes "host_call_failed") (codes "host callback failed") false 0
fault_error (some f) = rpc f.code f.message f.retryable f.http_status

-- `RPCError.Error`.
unfoldable pub rpc_error_text : Bytes → Bytes → Bytes
rpc_error_text raw_code raw_message =
    let code = trim raw_code in
    let message = trim raw_message in
    if not (same code []) && not (same message [])
    then code ++ (codes ": " ++ message)
    else if not (same code [])
    then code
    else if not (same message [])
    then message
    else codes "host callback failed"

-- `decodeEnvelope`: `zero` is what the destination holds before, and `read` decodes a result.
module _ {A : Type 0} (read_envelope : Bytes → Option Envelope) (read : Bytes → Option A)
    (zero_value : A) where
  abbrev read_result : Bytes → Result A
  read_result [] = ok zero_value
  read_result (c ∷ s) = elim (read (c ∷ s)) [
    | none ↦ err (wrapped "decode host callback result" (plain "json error"))
    | some a ↦ ok a
  ]

  abbrev read_decoded : Option Envelope → Result A
  read_decoded none = err (wrapped "decode host callback envelope" (plain "json error"))
  read_decoded (some e) = if not e.is_ok then err (fault_error e.fault) else read_result e.result

  unfoldable pub decode_envelope : Bytes → Result A
  decode_envelope [] = err (plain "host callback returned no response")
  decode_envelope (c ∷ s) = read_decoded (read_envelope (c ∷ s))

  -- `Client.invoke`: whether the bridge is there, whether the context is done, the request as JSON
  -- if it has one, and the raw call.
  unfoldable pub invoke : Bool → Bool → Option Bytes → (Bytes → Result Bytes) → Result A
  invoke available cancelled request call =
      if not available
      then err (plain "host callback bridge is unavailable")
      else if cancelled
      then err (plain "context done")
      else elim request [
        | none ↦ err (wrapped "marshal host callback request" (plain "json error"))
        | some body ↦ elim (call body) [
          | err e ↦ err (wrapped "call host callback" e)
          | ok raw ↦ decode_envelope raw
        ]
      ]

  -- If a call with a marshalled request succeeds, then the bridge is there, the context is live, and
  -- the host has answered the request with an envelope marked ok.
  pub invoke_ok :
      (available cancelled : Bool) (body : Bytes) (call : Bytes → Result Bytes) {a : A}
      → invoke available cancelled (some body) call ≡ ok a
      → (available ≡ true)
        × (cancelled ≡ false)
        × ((raw : Bytes) × (e : Envelope) × (call body ≡ ok raw)
            × (read_envelope raw ≡ some e)
            × (e.is_ok ≡ true))
  unfolding invoke decode_envelope
  invoke_ok false cancelled body call h = cc
  invoke_ok true true body call h = cc
  invoke_ok true false body call {a} h = (refl, refl, go' (call body) refl h)
    where
      envelope :
          (c : ℕ) (s : Bytes) (o : Option Envelope)
          → read_envelope (c ∷ s) ≡ o
          → read_decoded o ≡ ok a
          → (e : Envelope) × (read_envelope (c ∷ s) ≡ some e) × (e.is_ok ≡ true)
      envelope c s none q x = cc
      envelope c s (some e) q x = (e, q, ground arith)

      go' :
          (r : Result Bytes)
          → call body ≡ r
          → elim r [ err e ↦ err (wrapped "call host callback" e) | ok raw ↦ decode_envelope raw ]
            ≡ ok a
          → (raw : Bytes) × (e : Envelope) × (call body ≡ ok raw)
            × (read_envelope raw ≡ some e)
            × (e.is_ok ≡ true)
      go' (err x) q y = cc
      go' (ok []) q y = cc
      go' (ok (c ∷ s)) q y =
          let (e, b, d) = envelope c s (read_envelope (c ∷ s)) refl y in (c ∷ s, e, q, b, d)

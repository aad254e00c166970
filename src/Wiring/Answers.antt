-- ===== src/Wiring/Answers.antt =====
-- A call of the whole plugin is answered.
use codex_pat.Abi.HostCall.{size_fits_go_bytes}
use codex_pat.Abi.Memory.{Buffer, Memory, empty_buffer, null_pointer}
use codex_pat.Abi.Process.{
  Dispatcher, Process, Program, Reply, answer_call, dispatch_plugin, finish_call, initialize_plugin,
  panicked, plugin_call, replied, respond, started, write_response,
}
use codex_pat.Abi.Process.Steps.{Reachable}
use codex_pat.Base.{
  Bool, Bool-cases, Bytes, Option, String, [], ap, arith, codes, false, if◌then◌else◌, inl, inr,
  ltb, none, not, refl, some, subst, sym, ℕ, ◌&&◌, ◌==◌, ◌||◌, ◌∷◌, ◌≡◌, ◌≢◌,
}
use codex_pat.HostRpc.Client.{Sdk}
use codex_pat.HostRpc.Envelope.{Envelope}
use codex_pat.Management.Assets.{ManagementRegistration, Page}
use codex_pat.Platform.{Platform}
use codex_pat.Plugin.{Answer, PluginResponse, failure, success}
use codex_pat.Plugin.Dispatch.{dispatch}
use codex_pat.Plugin.Envelope.{
  Messages, encode, error_envelope, error_response, or_text, result_envelope, success_envelope,
}
use codex_pat.Wiring.{Machine, Setup, codex_program}
use codex_pat.Wiring.Contract.{Reachable-started}

or_text_ne_nil :
    (fallback : Bytes) (o : Option Bytes) → fallback ≢ [] → o ≢ some [] → or_text fallback o ≢ []
or_text_ne_nil fallback none f n = f
or_text_ne_nil fallback (some raw) f n = λ e. n (ap (λ (x : Bytes). some x) e)

module _ {L A : Type 0} (messages : Messages L A)
    (written : (e : Envelope) → messages.envelope_json e ≢ some []) where
  error_envelope_ne_nil :
      (code : String) (message : Bytes) (retryable : Bool) (status : ℕ)
      → error_envelope messages code message retryable status ≢ []
  unfolding error_envelope
  error_envelope_ne_nil code message retryable status = or_text_ne_nil _ _ (λ e. cc) (written _)

  error_response_ne_nil : (code message : String) → error_response messages code message ≢ []
  unfolding error_response
  error_response_ne_nil code message = error_envelope_ne_nil code (codes message) false 0

  encode_ne_nil : (r : PluginResponse (Answer L A)) → encode messages r ≢ []
  unfolding success_envelope
  encode_ne_nil (success a) = by_json (messages.answer_json a)
    where
      by_json : (o : Option Bytes) → result_envelope messages o ≢ []
      by_json none = error_envelope_ne_nil _ _ _ _
      by_json (some result) = or_text_ne_nil _ _ (λ e. cc) (written _)
  encode_ne_nil (failure code message retryable status) =
      error_envelope_ne_nil code message retryable status

-- The C allocator has memory left.
pub record HasMemory (m : Memory) : Type 0 where
  pub copies : (s : Bytes) (w : m.World) → (m.copy_bytes s w).0 ≢ null_pointer

replied_injective : {a b : Bytes} → replied a ≡ replied b → a ≡ b
replied_injective h = cc

module _ (m : Memory) (program : Program m) (enough : HasMemory m) where
  respond_answers :
      (b : Buffer) (raw : Bytes) (p : Process m) → raw ≢ [] → (respond m program b raw p).0.0 ≡ 0
  unfolding respond write_response
  respond_answers b [] p n = absurd (n refl)
  respond_answers b (x ∷ s) p n =
      elim (Bool-cases ((m.copy_bytes (x ∷ s) p.world).0 == null_pointer)) [
        | inl e ↦ absurd (enough.copies (x ∷ s) p.world (ground arith))
        | inr e ↦ rw e refl
      ]

  -- A dispatcher that returns a text answers every call.
  answer_call_answers :
      (method request len : ℕ) (p : Process m)
      → ((code message : String) → program.error_response code message ≢ [])
      → ((text body : Bytes)
          → (raw : Bytes) × (raw ≢ []) × ((dispatch_plugin m program text body p).0 ≡ replied raw))
      → (answer_call m program method request len p).0.0 ≡ 0
  unfolding answer_call
  answer_call_answers method request len p errors replies =
      elim (Bool-cases (method == null_pointer)) [
        | inl e ↦ rw e (respond_answers empty_buffer _ p (errors _ _))
        | inr e ↦
            elim (Bool-cases
              (ltb 0 len && (request == null_pointer || not (size_fits_go_bytes len)))) [
                | inl f ↦ rw (e, f) (respond_answers empty_buffer _ p (errors _ _))
                | inr f ↦
                    rw (e, f)
                      (finished _ (
                        replies (m.text_at p.world method)
                          (if ltb 0 len then m.bytes_at p.world request len else [])))
              ]
      ]
    where
      finished :
          (r : Reply × Process m)
          → ((raw : Bytes) × (raw ≢ []) × (r.0 ≡ replied raw))
          → (finish_call m program r).0.0 ≡ 0
      finished (panicked, p') (raw, n, e) = cc
      finished (replied text, p') (raw, n, e) =
          respond_answers empty_buffer text p' (subst (λ x. x ≢ []) (sym (replied_injective e)) n)

module _ (go : Platform) (sdk : Sdk) (m : Memory) (machine : Machine m.World) (setup : Setup)
    (fuel abi_version : ℕ) (messages : Messages ManagementRegistration Page) where
  abbrev program : Program m
  program = codex_program go sdk m machine setup fuel abi_version messages

  own_replies :
      (d : Dispatcher m) (p : Process m)
      → d ≡ program.new_dispatcher
      → ((e : Envelope) → messages.envelope_json e ≢ some [])
      → (text body : Bytes)
      → (raw : Bytes) × (raw ≢ []) × ((d.dispatch p.api text body p.world).0 ≡ replied raw)
  unfolding codex_program dispatch
  own_replies d p e written text body =
      subst
        (λ (x : Dispatcher m).
          (raw : Bytes) × (raw ≢ []) × ((x.dispatch p.api text body p.world).0 ≡ replied raw))
        (sym e) (_, encode_ne_nil messages written _, refl)

  -- In every process that the host can bring about, a call of the plugin with a response to fill
  -- returns 0, whatever it asks and whatever the host's functions answer, if the C allocator has memory
  -- for the response and the JSON of an envelope is not empty.
  pub codex_call_answers :
      {p : Process m}
      → Reachable m program p
      → HasMemory m
      → ((e : Envelope) → messages.envelope_json e ≢ some [])
      → (method request len : ℕ) (response : Buffer)
      → (plugin_call m program method request len (some response) p).0.0 ≡ 0
  unfolding plugin_call dispatch_plugin initialize_plugin codex_program
  codex_call_answers {p} r enough written method request len response =
      answer_call_answers m program enough method request len p
        (λ code message. error_response_ne_nil messages written code message)
        λ text body.
          own_replies (started m program p.dispatcher) p
            (Reachable-started go sdk m machine setup fuel abi_version messages r) written text body

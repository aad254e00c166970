-- ===== src/Wiring/Serves.antt =====
-- The plugin in use: a host that calls it again and again, and frees each response.
use codex_pat.Abi.Memory.{
  Buffer, HoldsSame, HoldsSame-trans, HostApi, IsAllocator, IsPolite, Memory, empty_buffer,
  null_pointer,
}
use codex_pat.Abi.Process.{
  Process, Program, Reply, answer_call, dispatch_plugin, finish_call, initialize_plugin, panicked,
  plugin_call, plugin_free, recover_call, replied, respond,
}
use codex_pat.Abi.Process.Replies.{answer_call-cases, plugin_free-plugin_call}
use codex_pat.Abi.Process.Steps.{Reachable, called, freed, step, stepped}
use codex_pat.Base.{Bool-cases, Bytes, inl, inr, refl, some, sym, ℕ, ◌==◌, ◌∙◌, ◌≡◌}
use codex_pat.HostRpc.Client.{Sdk}
use codex_pat.Management.Assets.{ManagementRegistration, Page}
use codex_pat.Platform.{Platform}
use codex_pat.Plugin.Envelope.{Messages}
use codex_pat.Wiring.{Machine, Setup, codex_program}
use codex_pat.Wiring.Contract.{Reachable-IsTidy}
use codex_pat.Wiring.Quiet.{IsApart}

module _ (m : Memory) (program : Program m) where
  -- A call with a response to fill, and the release of that response.
  unfoldable pub serve : ℕ → ℕ → ℕ → Process m → Process m
  serve method request len p =
      let ((code, b), p') = answer_call m program method request len p in
      plugin_free m program b.ptr b.len p'

  -- Any number of calls, each with the release of its response.
  pub data Served : Process m → Process m → Type 0 where
    no_call : {p : Process m} → Served p p
    next_call :
        {p p' : Process m} (method request len : ℕ)
        → Served (serve method request len p) p'
        → Served p p'

  respond_api :
      (b : Buffer) (raw : Bytes) (p : Process m) → (respond m program b raw p).1.api ≡ p.api
  unfolding respond
  respond_api b raw p = refl

  finish_call_api : (r : Reply × Process m) → (finish_call m program r).1.api ≡ r.1.api
  unfolding recover_call
  finish_call_api (replied raw, p) = respond_api empty_buffer raw p
  finish_call_api (panicked, p) = respond_api empty_buffer _ p

  answer_call_api :
      (method request len : ℕ) (p : Process m)
      → (answer_call m program method request len p).1.api ≡ p.api
  unfolding dispatch_plugin initialize_plugin
  answer_call_api method request len p =
      answer_call-cases m program (λ r. r.1.api ≡ p.api) method request len p
        (λ raw. respond_api empty_buffer raw p)
        λ text body. finish_call_api (dispatch_plugin m program text body p)

  plugin_free_api : (ptr len : ℕ) (p : Process m) → (plugin_free m program ptr len p).api ≡ p.api
  unfolding plugin_free
  plugin_free_api ptr len p = elim (Bool-cases (ptr == null_pointer)) [
    | inl e ↦ rw e refl
    | inr e ↦ rw e refl
  ]

  serve_api : (method request len : ℕ) (p : Process m) → (serve method request len p).api ≡ p.api
  unfolding serve
  serve_api method request len p =
      plugin_free_api _ _ (answer_call m program method request len p).1
      ∙ answer_call_api method request len p

  serve-Reachable :
      (method request len : ℕ) {p : Process m}
      → Reachable m program p
      → Reachable m program (serve method request len p)
  unfolding serve step plugin_call
  serve-Reachable method request len {p} r =
      let b = (answer_call m program method request len p).0.1 in
      stepped (freed b.ptr b.len) (stepped (called method request len (some empty_buffer)) r)

module _ (go : Platform) (sdk : Sdk) (m : Memory) (machine : Machine m.World) (setup : Setup)
    (fuel abi_version : ℕ) (messages : Messages ManagementRegistration Page) where
  abbrev own_program : Program m
  own_program = codex_program go sdk m machine setup fuel abi_version messages

  -- A host that calls the plugin any number of times, whatever it asks, and frees each response, finds
  -- the same blocks of C memory held in the end as in the beginning. The process is one that the host
  -- can bring about, the allocator keeps its law, the disk and the clock are apart from its memory,
  -- and the host that is stored hands over the buffers of its own responses until they are freed.
  pub codex_serves :
      {p p' : Process m}
      → IsAllocator m
      → IsApart m machine
      → Served m own_program p p'
      → Reachable m own_program p
      → ((host : HostApi m) → p.api ≡ some host → IsPolite m host)
      → HoldsSame m p.world p'.world
  unfolding serve
  codex_serves c apart no_call r polite = λ q. refl
  codex_serves {p} c apart (next_call method request len s) r polite =
      HoldsSame-trans m
        (plugin_free-plugin_call m own_program c method request len p
          (Reachable-IsTidy go sdk m machine setup fuel abi_version messages c apart r polite))
        (codex_serves c apart s (serve-Reachable m own_program method request len r)
          λ host e. polite host (sym (serve_api m own_program method request len p) ∙ e))

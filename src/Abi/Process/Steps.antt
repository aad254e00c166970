-- ===== src/Abi/Process/Steps.antt =====
-- The process in the host's hands: the exports in any order.
use codex_pat.Abi.HostCall.{raw_host_call}
use codex_pat.Abi.HostCall.Balance.{
  HasCallbacks, IsBalanced, raw_host_call-IsBalanced, raw_host_call-IsBalanced-none,
}
use codex_pat.Abi.Memory.{
  Buffer, HostApi, IsAllocator, IsPolite, Memory, empty_buffer, null_pointer,
}
use codex_pat.Abi.Process.{
  Dispatcher, PluginApi, Process, Program, Reply, answer_call, dispatch_plugin, finish_call,
  has_functions, host_api_compatible, initialize_plugin, panicked, plugin_call, plugin_free,
  plugin_init, plugin_shutdown, recover_call, replied, respond, shutdown_plugin, started,
}
use codex_pat.Abi.Process.Replies.{answer_call-cases}
use codex_pat.Base.{
  Bool-cases, Bytes, Option, arith, inl, inr, none, refl, some, some_injective, subst, sym, true, ℕ,
  ◌==◌, ◌∙◌, ◌≡◌,
}

module _ (m : Memory) (program : Program m) where
  -- The calls of the host.
  pub data Event : Type 0 where
    initialise : Option (HostApi m) → Option PluginApi → Event
    called : ℕ → ℕ → ℕ → Option Buffer → Event
    freed : ℕ → ℕ → Event
    shut_down : Event

  unfoldable pub step : Event → Process m → Process m
  step (initialise host exports) p = (plugin_init m program host exports p).1
  step (called method request len response) p =
      (plugin_call m program method request len response p).1
  step (freed ptr len) p = plugin_free m program ptr len p
  step shut_down p = plugin_shutdown m program p

  -- What a process comes to that has been loaded.
  pub data Reachable : Process m → Type 0 where
    loaded : (w : m.World) → Reachable (record { api = none; dispatcher = none; world = w })
    stepped : {p : Process m} (e : Event) → Reachable p → Reachable (step e p)

  -- A table that is kept has passed the tests, and a dispatcher that is kept is the program's.
  pub record IsSafe (p : Process m) : Type 0 where
    pub compatible :
        (host : HostApi m) → p.api ≡ some host → host_api_compatible m program (some host) ≡ true
    pub own : (d : Dispatcher m) → p.dispatcher ≡ some d → d ≡ program.new_dispatcher

  plugin_init-IsSafe :
      (host : Option (HostApi m)) (exports : Option PluginApi) (p : Process m)
      → IsSafe p
      → IsSafe (plugin_init m program host exports p).1
  unfolding plugin_init
  plugin_init-IsSafe host none p s = s
  plugin_init-IsSafe host (some x) p s = elim (Bool-cases (host_api_compatible m program host)) [
    | inl e ↦ rw e (record {
      compatible = λ h q. subst (λ o. host_api_compatible m program o ≡ true) q e;
      own = s.own;
    })
    | inr e ↦ rw e s
  ]

  -- What an export does to the two variables, where it does not initialise.
  same_variables :
      {p p' : Process m} → p'.api ≡ p.api → p'.dispatcher ≡ p.dispatcher → IsSafe p → IsSafe p'
  same_variables a d s = record {
    compatible = λ h q. s.compatible h (sym a ∙ q);
    own = λ x q. s.own x (sym d ∙ q);
  }

  respond_same :
      (b : Buffer) (raw : Bytes) (p : Process m) → IsSafe p → IsSafe (respond m program b raw p).1
  unfolding respond
  respond_same b raw p s = same_variables refl refl s

  finish_call-IsSafe : (r : Reply × Process m) → IsSafe r.1 → IsSafe (finish_call m program r).1
  unfolding recover_call
  finish_call-IsSafe (replied raw, p) s = respond_same empty_buffer raw p s
  finish_call-IsSafe (panicked, p) s = respond_same empty_buffer _ p s

  pub started_own :
      (o : Option (Dispatcher m))
      → ((d : Dispatcher m) → o ≡ some d → d ≡ program.new_dispatcher)
      → started m program o ≡ program.new_dispatcher
  started_own none h = refl
  started_own (some d) h = h d refl

  dispatch_plugin-IsSafe :
      (method request : Bytes) (p : Process m)
      → IsSafe p
      → IsSafe (dispatch_plugin m program method request p).1
  unfolding dispatch_plugin initialize_plugin
  dispatch_plugin-IsSafe method request p s = record {
    compatible = s.compatible;
    own = λ d q. sym (some_injective q) ∙ started_own p.dispatcher s.own;
  }

  answer_call-IsSafe :
      (method request len : ℕ) (p : Process m)
      → IsSafe p
      → IsSafe (answer_call m program method request len p).1
  answer_call-IsSafe method request len p s =
      answer_call-cases m program (λ r. IsSafe r.1) method request len p
        (λ raw. respond_same empty_buffer raw p s)
        λ text body. finish_call-IsSafe _ (dispatch_plugin-IsSafe text body p s)

  step-IsSafe : (e : Event) (p : Process m) → IsSafe p → IsSafe (step e p)
  unfolding step plugin_free plugin_shutdown shutdown_plugin plugin_call
  step-IsSafe (initialise host exports) p s = plugin_init-IsSafe host exports p s
  step-IsSafe (called method request len none) p s = s
  step-IsSafe (called method request len (some b)) p s = answer_call-IsSafe method request len p s
  step-IsSafe (freed ptr len) p s = elim (Bool-cases (ptr == null_pointer)) [
    | inl e ↦ rw e s
    | inr e ↦ rw e (same_variables refl refl s)
  ]
  step-IsSafe shut_down p s = record { compatible = λ h q. cc; own = λ d q. cc }

  -- Whatever exports the host has called in whatever order, the table that is kept has the version
  -- of the ABI and both functions, and the dispatcher that is kept is the one of this program.
  pub Reachable-IsSafe : {p : Process m} → Reachable p → IsSafe p
  Reachable-IsSafe (loaded w) = record { compatible = λ h q. cc; own = λ d q. cc }
  Reachable-IsSafe (stepped {p} e r) = step-IsSafe e p (Reachable-IsSafe r)

  host_api_compatible-HasCallbacks :
      (host : HostApi m) → host_api_compatible m program (some host) ≡ true → HasCallbacks host
  unfolding host_api_compatible
  host_api_compatible-HasCallbacks host h =
      by_functions host.call host.free_buffer refl refl (ground arith)
    where
      by_functions :
          (f : Option (ℕ → ℕ → ℕ → m.World → (ℕ × Buffer) × m.World))
          (g : Option (ℕ → ℕ → m.World → m.World))
          → host.call ≡ f
          → host.free_buffer ≡ g
          → has_functions m program f g ≡ true
          → HasCallbacks host
      by_functions none g a b h = cc
      by_functions (some f) none a b h = cc
      by_functions (some f) (some g) a b h = record {
        call = f;
        call_is = a;
        free_buffer = g;
        free_buffer_is = b;
      }

  -- In every process that the host can bring about, a host call gives back every block that it and
  -- the host have allocated for it, whether it succeeds or fails. The allocator keeps its law, and the
  -- host that is stored hands over the buffers of its responses until they are freed.
  pub Reachable-IsBalanced :
      {p : Process m}
      → IsAllocator m
      → Reachable p
      → ((host : HostApi m) → p.api ≡ some host → IsPolite m host)
      → (method request : Bytes) → IsBalanced m (raw_host_call m p.api method request)
  Reachable-IsBalanced {p} c r polite method request =
      by_api p.api (Reachable-IsSafe r).compatible polite
    where
      by_api :
          (o : Option (HostApi m))
          → ((host : HostApi m) → o ≡ some host → host_api_compatible m program (some host) ≡ true)
          → ((host : HostApi m) → o ≡ some host → IsPolite m host)
          → IsBalanced m (raw_host_call m o method request)
      by_api none k polite = raw_host_call-IsBalanced-none m c method request
      by_api (some host) k polite =
          raw_host_call-IsBalanced m c host (polite host refl)
            (host_api_compatible-HasCallbacks host (k host refl)) method request

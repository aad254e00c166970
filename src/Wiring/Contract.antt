-- ===== src/Wiring/Contract.antt =====
-- A call of the whole plugin, from the export to the host's functions, and what it leaves in memory.
use codex_pat.Abi.HostCall.Balance.{IsBalanced}
use codex_pat.Abi.Memory.{Buffer, HostApi, IsAllocator, IsPolite, Memory}
use codex_pat.Abi.Process.{Dispatcher, Process, Program, plugin_call, started}
use codex_pat.Abi.Process.Replies.{Answered, IsTidy, plugin_call_contract}
use codex_pat.Abi.Process.Steps.{Reachable, Reachable-IsBalanced, Reachable-IsSafe, started_own}
use codex_pat.Base.{some, subst, sym, ℕ, ◌≡◌}
use codex_pat.HostRpc.Client.{Sdk}
use codex_pat.Management.Assets.{ManagementRegistration, Page}
use codex_pat.Platform.{Platform}
use codex_pat.Plugin.Envelope.{Messages}
use codex_pat.Wiring.{Machine, Setup, codex_program}
use codex_pat.Wiring.Quiet.{IsApart, dispatch-IsBalanced}

module _ (go : Platform) (sdk : Sdk) (m : Memory) (machine : Machine m.World) (setup : Setup)
    (fuel abi_version : ℕ) (messages : Messages ManagementRegistration Page) where
  abbrev own_program : Program m
  own_program = codex_program go sdk m machine setup fuel abi_version messages

  -- The dispatcher that answers is the program's own.
  pub Reachable-started :
      {p : Process m}
      → Reachable m own_program p
      → started m own_program p.dispatcher ≡ own_program.new_dispatcher
  Reachable-started {p} r =
      started_own m own_program p.dispatcher (Reachable-IsSafe m own_program r).own

  pub Reachable-IsTidy :
      {p : Process m}
      → IsAllocator m
      → IsApart m machine
      → Reachable m own_program p
      → ((host : HostApi m) → p.api ≡ some host → IsPolite m host)
      → IsTidy m own_program p
  unfolding codex_program
  Reachable-IsTidy {p} c apart r polite method request =
      subst (λ (d : Dispatcher m). IsBalanced m (d.dispatch p.api method request))
        (sym (Reachable-started r))
        (record {
          holds = λ w.
              (dispatch-IsBalanced go sdk m machine apart p.api
                  (Reachable-IsBalanced m own_program c r polite) setup fuel messages method
                  request).holds
                w;
        })

  -- In every process that the host can bring about, a call of the plugin with a response to fill,
  -- whatever it asks and whatever the host's functions answer, either returns 0 with a response that
  -- is not empty, in a block that was not held before and is all that is held besides, or 1 with no
  -- response and no block more. The C allocator keeps its law, the disk and the clock are apart from
  -- its memory, and the host that is stored hands over the buffers of its responses until they are
  -- freed.
  pub codex_call_contract :
      {p : Process m}
      → IsAllocator m
      → IsApart m machine
      → Reachable m own_program p
      → ((host : HostApi m) → p.api ≡ some host → IsPolite m host)
      → (method request len : ℕ) (response : Buffer)
      → (code : ℕ) × (b : Buffer) × (p' : Process m) × (plugin_call m own_program method request len
            (some response)
            p
          ≡ ((code, some b), p'))
        × Answered m p.world code b p'.world
  codex_call_contract {p} c apart r polite method request len response =
      plugin_call_contract m own_program c method request len response p
        (Reachable-IsTidy c apart r polite)

-- ===== src/HostRpc/Client/Limited/Balance.antt =====
-- The bounded call over the native bridge leaves no block behind, whether its stream is closed or not,
-- and nor does any other wrapper.
use codex_pat.Abi.HostCall.{raw_host_call}
use codex_pat.Abi.HostCall.Balance.{IsBalanced}
use codex_pat.Abi.Memory.{HoldsSame, HoldsSame-trans, HostApi, IsAllocator, IsPolite, Memory}
use codex_pat.Abi.Process.{Process, Program}
use codex_pat.Abi.Process.Steps.{Reachable, Reachable-IsBalanced}
use codex_pat.Base.{
  Bool, Bool-cases, Bytes, Option, [], false, inl, inr, none, refl, same, some, suc, zero, ℕ, ◌==◌,
  ◌≡◌,
}
use codex_pat.Errors.{Result, err, ok}
use codex_pat.HostRpc.Client.{
  Client, Sdk, auth_get, auth_get_runtime, auth_list, auth_save, http_do, log,
}
use codex_pat.HostRpc.Client.Asks.{native_client}
use codex_pat.HostRpc.Client.Balance.{
  auth_get-IsBalanced, auth_get_runtime-IsBalanced, auth_list-IsBalanced, auth_save-IsBalanced,
  http_do-IsBalanced, invoke_method-IsBalanced, log-IsBalanced,
}
use codex_pat.HostRpc.Client.Limited.{
  close_http_stream, finish_close, finish_read, host_http_do_limited, open_http_stream, read_chunks,
  read_http_stream, read_stream,
}
use codex_pat.HostRpc.Stream.{Opened, ReadStep, failed, finished, more, read_step}
use codex_pat.Json.{Dict, Json}
use codex_pat.Platform.{Platform}
use codex_pat.Text.Trim.{trim}
use codex_pat.Whoami.{Request}

module _ (go : Platform) (sdk : Sdk) (m : Memory) (api : Option (HostApi m))
    (cancelled : m.World → Bool)
    (balanced : (method request : Bytes) → IsBalanced m (raw_host_call m api method request)) where
  abbrev native : Client m.World
  native = native_client go sdk m api cancelled

  pub close_http_stream-IsBalanced :
      (id : Bytes) → IsBalanced m (close_http_stream go sdk native id)
  unfolding close_http_stream
  close_http_stream-IsBalanced id =
      invoke_method-IsBalanced go sdk m api (λ w. false) balanced _ _ _ _

  read_http_stream-IsBalanced : (id : Bytes) → IsBalanced m (read_http_stream go sdk native id)
  unfolding read_http_stream
  read_http_stream-IsBalanced id = invoke_method-IsBalanced go sdk m api cancelled balanced _ _ _ _

  open_http_stream-IsBalanced :
      (id : Bytes) (r : Request) → IsBalanced m (open_http_stream go sdk native id r)
  unfolding open_http_stream
  open_http_stream-IsBalanced id r =
      invoke_method-IsBalanced go sdk m api cancelled balanced _ _ _ _

  read_chunks-holds :
      (fuel limit : ℕ) (id body : Bytes) (w v : m.World)
      → HoldsSame m w v
      → HoldsSame m w (read_chunks go sdk native fuel limit id body v).1
  unfolding read_chunks
  read_chunks-holds zero limit id body w v s = s
  read_chunks-holds (suc fuel) limit id body w v s =
      by_step (read_step limit body (read_http_stream go sdk native id v).0)
        λ longer. read_chunks-holds fuel limit id longer w _ read
    where
      read : HoldsSame m w (read_http_stream go sdk native id v).1
      read = HoldsSame-trans m s ((read_http_stream-IsBalanced id).holds v)

      by_step :
          (t : ReadStep)
          → ((longer : Bytes)
              → HoldsSame m w
                  (read_chunks go sdk native fuel limit id longer
                    (read_http_stream go sdk native id v).1).1)
          → HoldsSame m w
              (elim t as (λ _. Option (Result Bytes) × m.World) [
                | failed e ↦ (some (err e), (read_http_stream go sdk native id v).1)
                | finished whole ↦ (some (ok whole), (read_http_stream go sdk native id v).1)
                | more longer ↦
                    read_chunks go sdk native fuel limit id longer
                      (read_http_stream go sdk native id v).1
              ]).1
      by_step (failed e) again = read
      by_step (finished whole) again = read
      by_step (more longer) again = again longer

  module _ (w : m.World) (id : Bytes) (status : ℕ) where
    closed-holds :
        (v : m.World) → HoldsSame m w v → HoldsSame m w (close_http_stream go sdk native id v).1
    closed-holds v s = HoldsSame-trans m s ((close_http_stream-IsBalanced id).holds v)

    finish_close-holds :
        (body : Bytes) (c : Result (Unit {0}) × m.World)
        → HoldsSame m w c.1
        → HoldsSame m w (finish_close go sdk native id status body c).1
    finish_close-holds body (err e, v) s = closed-holds v s
    finish_close-holds body (ok _, v) s = s

    finish_read-holds :
        (r : Option (Result Bytes) × m.World)
        → HoldsSame m w r.1
        → HoldsSame m w (finish_read go sdk native id status r).1
    finish_read-holds (none, v) s = s
    finish_read-holds (some (err e), v) s = closed-holds v s
    finish_read-holds (some (ok body), v) s =
        finish_close-holds body (close_http_stream go sdk native id v) (closed-holds v s)

  read_stream-holds :
      (fuel limit : ℕ) (w : m.World) (o : Result Opened × m.World)
      → HoldsSame m w o.1
      → HoldsSame m w (read_stream go sdk native fuel limit o).1
  read_stream-holds fuel limit w (err e, v) s = s
  read_stream-holds fuel limit w (ok o, v) s = elim (Bool-cases (same (trim o.stream_id) [])) [
    | inl e ↦ rw e s
    | inr e ↦ rw e (
        finish_read-holds w (trim o.stream_id) o.status_code _
          (read_chunks-holds fuel limit (trim o.stream_id) [] w v s))
  ]

  -- The bounded call holds no other blocks when it ends.
  pub host_http_do_limited-IsBalanced :
      (fuel : ℕ) (id : Bytes) (r : Request) (limit : ℕ)
      → IsBalanced m (host_http_do_limited go sdk native fuel id r limit)
  unfolding host_http_do_limited
  host_http_do_limited-IsBalanced fuel id r limit = record {
    holds = λ w. elim (Bool-cases (limit == 0)) [
      | inl e ↦ rw e (λ q. refl)
      | inr e ↦ rw e (
          read_stream-holds fuel limit w (open_http_stream go sdk native id r w)
            ((open_http_stream-IsBalanced id r).holds w))
    ];
  }

-- In every process that the host can bring about, each wrapper over the native bridge, whether it
-- succeeds or fails, leaves the same blocks held as before: HTTPDo, HTTPDoLimited with whatever limit
-- and however much fuel, closeHTTPStream, AuthList, AuthGet, AuthGetRuntime, AuthSave and Log. The
-- allocator keeps its law, and the host that is stored hands over the buffers of its responses until
-- they are freed.
pub clients-IsBalanced :
    (go : Platform) (sdk : Sdk) (m : Memory) (program : Program m) (cancelled : m.World → Bool)
    {p : Process m}
    → IsAllocator m
    → Reachable m program p
    → ((host : HostApi m) → p.api ≡ some host → IsPolite m host)
    → (id index name raw level : Bytes) (r : Request) (fields : Dict Json) (fuel limit : ℕ)
    → IsBalanced m (http_do go sdk (native_client go sdk m p.api cancelled) id r)
      × IsBalanced m
          (host_http_do_limited go sdk (native_client go sdk m p.api cancelled) fuel id r limit)
      × IsBalanced m (close_http_stream go sdk (native_client go sdk m p.api cancelled) id)
      × IsBalanced m (auth_list go sdk (native_client go sdk m p.api cancelled) id)
      × IsBalanced m (auth_get go sdk (native_client go sdk m p.api cancelled) id index)
      × IsBalanced m (auth_get_runtime go sdk (native_client go sdk m p.api cancelled) id index)
      × IsBalanced m (auth_save go sdk (native_client go sdk m p.api cancelled) id name raw)
      × IsBalanced m (log go sdk (native_client go sdk m p.api cancelled) id level fields)
clients-IsBalanced go sdk m program cancelled {p} c r polite id index name raw level q fields fuel
      limit =
    let balanced = Reachable-IsBalanced m program c r polite in
    (
      http_do-IsBalanced go sdk m p.api cancelled balanced id q,
      host_http_do_limited-IsBalanced go sdk m p.api cancelled balanced fuel id q limit,
      close_http_stream-IsBalanced go sdk m p.api cancelled balanced id,
      auth_list-IsBalanced go sdk m p.api cancelled balanced id,
      auth_get-IsBalanced go sdk m p.api cancelled balanced id index,
      auth_get_runtime-IsBalanced go sdk m p.api cancelled balanced id index,
      auth_save-IsBalanced go sdk m p.api cancelled balanced id name raw,
      log-IsBalanced go sdk m p.api cancelled balanced id level fields,
    )

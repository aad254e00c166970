-- ===== src/Tests/Streams.antt =====
-- The bounded call over a host that answers every call, and counts them.
use codex_pat.Base.{
  Bytes, [], ap, arith, codes, false, leb, length, refl, same, some, some_injective, subst, ℕ, ◌+◌,
  ◌<◌, ◌≡◌, ◌≤◌,
}
use codex_pat.Errors.{no_error, ok, plain}
use codex_pat.Exec.{Exec, lift, or_raise, ◌>>=◌}
use codex_pat.HostRpc.Client.{Client, Sdk, invoke_method}
use codex_pat.HostRpc.Client.Limited.{
  close_http_stream, host_http_do_limited, open_http_stream, read_chunks, read_http_stream,
}
use codex_pat.HostRpc.Client.Limited.Bounds.{host_http_do_limited-length-le}
use codex_pat.HostRpc.Client.Limited.Ends.{IsTimed, host_http_do_limited_ends}
use codex_pat.HostRpc.Envelope.{decode_envelope}
use codex_pat.HostRpc.Stream.{Opened, read_step, reply_of}
use codex_pat.Tests.Machine.{machine}
use codex_pat.Tests.Native.{sdk}
use codex_pat.Text.Trim.{trim}
use codex_pat.Whoami.{Reply, Request}

abbrev counting : Client ℕ
counting = record {
  call = some (λ method request w. (ok (codes "a"), w + 1));
  cancelled = λ w. false;
}

abbrev request : Request
request = record { method = codes "GET"; url = codes "u"; headers = []; body = [] }

abbrev whole : Reply
whole = record { status_code = 200; body = codes "w"; failure = no_error }

-- The stream is opened, read once, and closed.
limited_run : host_http_do_limited machine sdk counting 2 [] request 1 0 ≡ (some whole, 3)
unfolding host_http_do_limited open_http_stream read_http_stream close_http_stream read_chunks
    invoke_method ◌>>=◌ or_raise lift decode_envelope same trim read_step
limited_run = refl

-- A bound of 0 is refused before anything is asked.
over_run :
    host_http_do_limited machine sdk counting 2 [] request 0 0
    ≡ (some (reply_of 0 [] (plain "host HTTP response limit must be positive")), 0)
unfolding host_http_do_limited
over_run = refl

-- The same host, with a list of the methods that it is called with.
abbrev opened : Opened
opened = record { status_code = 200; stream_id = codes "1" }

abbrev bridge : Bytes → Bytes → Exec ℕ Bytes
bridge method asked w = (ok (codes "a"), w + 1)

host_http_do_limited-length-le_example : length whole.body ≤ 1
host_http_do_limited-length-le_example =
    host_http_do_limited-length-le machine sdk counting 2 [] request 1 0 {reply = whole}
      (ap (λ x. x.0) limited_run)

-- A host whose stream is never done, and a context that is, after five calls.
abbrev endless_sdk : Sdk
endless_sdk = record sdk {
  read_stream_chunk = λ raw. some (record { payload = []; failure = []; done = false });
}

abbrev ticking : Client ℕ
ticking = record {
  call = some (λ method request w. (ok (codes "a"), w + 1));
  cancelled = λ w. leb 5 w;
}

ticking-IsTimed : IsTimed ticking (λ w. w) 5
ticking-IsTimed = record {
  expires = λ w h. ground (arith, h);
  takes_time = λ call e method request w.
      subst (λ (f : Bytes → Bytes → Exec ℕ Bytes). w < (f method request w).1) (some_injective e)
        (omega arith);
}

host_http_do_limited_ends_example :
    (reply : Reply) × ((host_http_do_limited machine endless_sdk ticking 6 [] request 1 0).0
      ≡ some reply)
host_http_do_limited_ends_example =
    host_http_do_limited_ends machine endless_sdk ticking (λ w. w) 5 ticking-IsTimed 5 [] request 1
      0 (omega arith)

-- ===== src/HostRpc/Client/Limited.antt =====
-- `Client.HTTPDoLimited` (internal/hostrpc/client.go) over the host itself: the stream is opened,
-- read and closed by host calls. The read loop is bounded by fuel, one unit for a read.
pub mod Bounds
pub mod Closes
pub mod Balance
pub mod Ends
use codex_pat.Base.{
  Bytes, Option, [], codes, false, if◌then◌else◌, none, same, some, suc, zero, ℕ, ◌==◌,
}
use codex_pat.Errors.{Result, err, no_error, ok, plain}
use codex_pat.Exec.{Exec}
use codex_pat.HostRpc.Client.{Client, Sdk, host_http_request, invoke_method, request_text}
use codex_pat.HostRpc.Stream.{Chunk, Opened, failed, finished, more, read_step, reply_of}
use codex_pat.Json.{end, field, string}
use codex_pat.Platform.{Platform}
use codex_pat.Service.{failure}
use codex_pat.Text.Trim.{trim}
use codex_pat.Whoami.{Reply, Request}

module _ (go : Platform) (sdk : Sdk) {W : Type 0} (client : Client W) where
  -- `hostHTTPStreamReadRequest` and `hostHTTPStreamCloseRequest`.
  abbrev pub stream_id_request : Bytes → Option Bytes
  stream_id_request id = request_text go sdk client (field (codes "stream_id") (string id) end)

  -- The call that opens the stream.
  unfoldable pub open_http_stream : Bytes → Request → Exec W Opened
  open_http_stream id r =
      invoke_method go sdk client sdk.method_host_http_do_stream
        (request_text go sdk client (host_http_request go sdk client id r)) sdk.read_stream_response
        (record { status_code = 0; stream_id = [] })

  -- The call of the read loop.
  unfoldable pub read_http_stream : Bytes → Exec W Chunk
  read_http_stream id =
      invoke_method go sdk client sdk.method_host_http_stream_read (stream_id_request id)
        sdk.read_stream_chunk (record { payload = []; failure = []; done = false })

  -- `closeHTTPStream`, under `context.Background`, which is never done.
  unfoldable pub close_http_stream : Bytes → Exec W (Unit {0})
  close_http_stream id =
      invoke_method go sdk (record client { cancelled = λ w. false })
        sdk.method_host_http_stream_close (stream_id_request id) (λ raw. some tt) tt

  -- The read loop, with the body so far; `none` is a loop that runs out of fuel.
  unfoldable pub read_chunks : ℕ → ℕ → Bytes → Bytes → W → Option (Result Bytes) × W
  read_chunks zero limit id body w = (none, w)
  read_chunks (suc fuel) limit id body w =
      let (chunk, w') = read_http_stream id w in
      elim (read_step limit body chunk) [
        | failed e ↦ (some (err e), w')
        | finished whole ↦ (some (ok whole), w')
        | more longer ↦ read_chunks fuel limit id longer w'
      ]

  -- The deferred close, whose error is dropped.
  abbrev pub close_after : Bytes → Reply × W → Option Reply × W
  close_after id (reply, w) = (some reply, (close_http_stream id w).1)

  abbrev pub finish_close : Bytes → ℕ → Bytes → Result (Unit {0}) × W → Option Reply × W
  finish_close id status body (err e, w) = close_after id (reply_of status [] e, w)
  finish_close id status body (ok _, w) = (some (reply_of status body no_error), w)

  -- What follows the loop.
  abbrev pub finish_read : Bytes → ℕ → Option (Result Bytes) × W → Option Reply × W
  finish_read id status (none, w) = (none, w)
  finish_read id status (some (err e), w) = close_after id (reply_of status [] e, w)
  finish_read id status (some (ok body), w) = finish_close id status body (close_http_stream id w)

  abbrev pub read_stream : ℕ → ℕ → Result Opened × W → Option Reply × W
  read_stream fuel limit (err e, w) = (some (reply_of 0 [] e), w)
  read_stream fuel limit (ok o, w) =
      if same (trim o.stream_id) []
      then (some (reply_of 0 [] (plain "host HTTP stream returned no identifier")), w)
      else finish_read (trim o.stream_id) o.status_code
          (read_chunks fuel limit (trim o.stream_id) [] w)

  -- `HTTPDoLimited`; `none` is a stream that is not done within the fuel.
  unfoldable pub host_http_do_limited : ℕ → Bytes → Request → ℕ → W → Option Reply × W
  host_http_do_limited fuel id r limit w =
      if limit == 0
      then (some (reply_of 0 [] (plain "host HTTP response limit must be positive")), w)
      else read_stream fuel limit (open_http_stream id r w)

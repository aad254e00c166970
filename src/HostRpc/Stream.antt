-- ===== src/HostRpc/Stream.antt =====
-- The stream of `Client.HTTPDoLimited` (internal/hostrpc/client.go): what the host answers, and one
-- round of the loop that reads a response in chunks, never beyond its bound.
use codex_pat.Base.{Bool, Bytes, [], if◌then◌else◌, length, ltb, not, same, ℕ, ◌++◌, ◌-◌}
use codex_pat.Errors.{Error, Result, body_limit, err, ok, plain}
use codex_pat.Whoami.{Reply}

-- `hostHTTPStreamResponse`, without the headers.
pub record Opened : Type 0 where
  pub status_code : ℕ
  pub stream_id : Bytes

-- `hostHTTPStreamReadResponse`.
pub record Chunk : Type 0 where
  pub payload : Bytes
  pub failure : Bytes
  pub done : Bool

-- What one read comes to.
pub data ReadStep : Type 0 where
  failed : Error → ReadStep
  finished : Bytes → ReadStep
  more : Bytes → ReadStep

-- One round of the read loop, with the body so far.
unfoldable pub read_step : ℕ → Bytes → Result Chunk → ReadStep
read_step limit body (err e) = failed e
read_step limit body (ok c) =
    if not (same c.failure [])
    then failed (plain "host HTTP response stream failed")
    else if ltb (limit - length body) (length c.payload)
    then failed (body_limit limit)
    else if c.done
    then finished (body ++ c.payload)
    else more (body ++ c.payload)

abbrev pub reply_of : ℕ → Bytes → Error → Reply
reply_of status body e = record { status_code = status; body = body; failure = e }

-- ===== src/HostRpc/Client/Limited/Bounds.antt =====
-- The bound on the body of a bounded call over the host.
use codex_pat.Base.{
  Bool-cases, Bytes, Option, [], arith, inl, inr, length, length-append, none, same, some, subst,
  suc, zero, ℕ, ◌==◌, ◌≡◌, ◌≤◌,
}
use codex_pat.Errors.{Result, err, ok}
use codex_pat.HostRpc.Client.{Client, Sdk}
use codex_pat.HostRpc.Client.Limited.{
  close_http_stream, finish_close, finish_read, host_http_do_limited, open_http_stream, read_chunks,
  read_http_stream, read_stream,
}
use codex_pat.HostRpc.Stream.{Chunk, Opened, ReadStep, failed, finished, more, read_step}
use codex_pat.Platform.{Platform}
use codex_pat.Text.Trim.{trim}
use codex_pat.Whoami.{Reply, Request}

abbrev Fits : ℕ → ReadStep → Type 0
Fits limit (failed e) = Unit {0}
Fits limit (finished body) = length body ≤ limit
Fits limit (more body) = length body ≤ limit

read_step-Fits :
    (limit : ℕ) (body : Bytes) (a : Result Chunk)
    → length body ≤ limit
    → Fits limit (read_step limit body a)
unfolding read_step
read_step-Fits limit body (err e) h = tt
read_step-Fits limit body (ok c) h = ground (arith, length-append body c.payload)

module _ (go : Platform) (sdk : Sdk) {W : Type 0} (client : Client W) where
  abbrev BodyFits : ℕ → Option (Result Bytes) → Type 0
  BodyFits limit none = Unit {0}
  BodyFits limit (some (err e)) = Unit {0}
  BodyFits limit (some (ok body)) = length body ≤ limit

  read_chunks-BodyFits :
      (fuel limit : ℕ) (id body : Bytes) (w : W)
      → length body ≤ limit
      → BodyFits limit (read_chunks go sdk client fuel limit id body w).0
  unfolding read_chunks
  read_chunks-BodyFits zero limit id body w h = tt
  read_chunks-BodyFits (suc fuel) limit id body w h =
      by_step (read_step limit body (read_http_stream go sdk client id w).0)
        (read_step-Fits limit body _ h)
        λ longer. read_chunks-BodyFits fuel limit id longer (read_http_stream go sdk client id w).1
    where
      by_step :
          (t : ReadStep)
          → Fits limit t
          → ((longer : Bytes)
              → length longer ≤ limit
              → BodyFits limit
                  (read_chunks go sdk client fuel limit id longer
                    (read_http_stream go sdk client id w).1).0)
          → BodyFits limit
              (elim t as (λ _. Option (Result Bytes) × W) [
                | failed e ↦ (some (err e), (read_http_stream go sdk client id w).1)
                | finished whole ↦ (some (ok whole), (read_http_stream go sdk client id w).1)
                | more longer ↦
                    read_chunks go sdk client fuel limit id longer
                      (read_http_stream go sdk client id w).1
              ]).0
      by_step (failed e) fits again = tt
      by_step (finished whole) fits again = fits
      by_step (more longer) fits again = again longer fits

  abbrev ReplyFits : ℕ → Option Reply → Type 0
  ReplyFits limit none = Unit {0}
  ReplyFits limit (some reply) = length reply.body ≤ limit

  finish_read-ReplyFits :
      (limit status : ℕ) (id : Bytes) (r : Option (Result Bytes) × W)
      → BodyFits limit r.0
      → ReplyFits limit (finish_read go sdk client id status r).0
  finish_read-ReplyFits limit status id (none, w) h = tt
  finish_read-ReplyFits limit status id (some (err e), w) h = omega arith
  finish_read-ReplyFits limit status id (some (ok body), w) h =
      by_close (close_http_stream go sdk client id w)
    where
      by_close :
          (c : Result (Unit {0}) × W)
          → ReplyFits limit (finish_close go sdk client id status body c).0
      by_close (ok _, w') = h
      by_close (err e, w') = omega arith

  host_http_do_limited-ReplyFits :
      (fuel : ℕ) (id : Bytes) (r : Request) (limit : ℕ) (w : W)
      → ReplyFits limit (host_http_do_limited go sdk client fuel id r limit w).0
  unfolding host_http_do_limited
  host_http_do_limited-ReplyFits fuel id r limit w = elim (Bool-cases (limit == 0)) [
    | inl e ↦ rw e (omega arith)
    | inr e ↦ rw e (by_opening (open_http_stream go sdk client id r w))
  ]
    where
      by_opening :
          (o : Result Opened × W) → ReplyFits limit (read_stream go sdk client fuel limit o).0
      by_opening (err e, w') = omega arith
      by_opening (ok o, w') = elim (Bool-cases (same (trim o.stream_id) [])) [
        | inl e ↦ rw e (omega arith)
        | inr e ↦ rw e (
            finish_read-ReplyFits limit o.status_code (trim o.stream_id) _
              (read_chunks-BodyFits fuel limit (trim o.stream_id) [] w' (omega arith)))
      ]

  -- A reply of the bounded call over the host has at most as many bytes as the limit allows.
  pub host_http_do_limited-length-le :
      (fuel : ℕ) (id : Bytes) (r : Request) (limit : ℕ) (w : W) {reply : Reply}
      → (host_http_do_limited go sdk client fuel id r limit w).0 ≡ some reply
      → length reply.body ≤ limit
  host_http_do_limited-length-le fuel id r limit w h =
      subst (ReplyFits limit) h (host_http_do_limited-ReplyFits fuel id r limit w)

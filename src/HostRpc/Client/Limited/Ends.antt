-- ===== src/HostRpc/Client/Limited/Ends.antt =====
-- The bounded call ends when its context does, since every host call takes time.
use codex_pat.Base.{
  Bool-cases, Bytes, Option, [], ap, arith, false, if◌then◌else◌, inl, inr, leb, none, refl, same,
  some, subst, suc, sym, true, zero, ℕ, ◌+◌, ◌<◌, ◌==◌, ◌≡◌, ◌≤◌, ◌⊎◌,
}
use codex_pat.Errors.{Error, Result, err, ok, plain, wrapped}
use codex_pat.Exec.{Exec, lift, or_raise, raise, ◌>>=◌}
use codex_pat.HostRpc.Client.{Client, Sdk, call_host, invoke_method}
use codex_pat.HostRpc.Client.Limited.{
  close_http_stream, finish_close, finish_read, host_http_do_limited, open_http_stream, read_chunks,
  read_http_stream, read_stream,
}
use codex_pat.HostRpc.Envelope.{decode_envelope}
use codex_pat.HostRpc.Stream.{Chunk, Opened, ReadStep, failed, finished, more, read_step}
use codex_pat.Platform.{Platform}
use codex_pat.Text.Trim.{trim}
use codex_pat.Whoami.{Reply, Request}

-- A client whose context is done from a deadline on, by a clock that every call moves forward.
pub record IsTimed {W : Type 0} (client : Client W) (clock : W → ℕ) (deadline : ℕ) : Type 0 where
  pub expires : (w : W) → deadline ≤ clock w → client.cancelled w ≡ true
  pub takes_time :
      (call : Bytes → Bytes → Exec W Bytes)
      → client.call ≡ some call
      → (method request : Bytes) (w : W) → clock w < clock (call method request w).1

module _ (go : Platform) (sdk : Sdk) {W : Type 0} (client : Client W) (clock : W → ℕ) (deadline : ℕ)
    (timed : IsTimed client clock deadline) where
  call_host_world :
      {A : Type 0} (call : Bytes → Bytes → Exec W Bytes) (method body : Bytes)
      (read : Bytes → Option A) (zero_value : A) (w : W)
      → (call_host go sdk client call method read zero_value (some body) w).1
        ≡ (call method body w).1
  unfolding ◌>>=◌ or_raise lift
  call_host_world {A} call method body read zero_value w = by_result (call method body w)
    where
      by_result :
          (p : Result Bytes × W)
          → ((or_raise (wrapped "call host callback") (λ _. p) >>= λ raw.
                lift (decode_envelope sdk.read_envelope read zero_value raw))
              w).1
            ≡ p.1
      by_result (ok raw, v) = refl
      by_result (err e, v) = refl

  in_time : {w : W} → client.cancelled w ≡ false → clock w < deadline
  in_time {w} t = elim (Bool-cases (leb deadline (clock w))) [
    | inl e ↦ let late = timed.expires w (ground arith) in cc
    | inr e ↦ ground arith
  ]

  -- A call of the client fails where it stands, or takes time.
  invoke_method_cases :
      {A : Type 0} (method body : Bytes) (read : Bytes → Option A) (zero_value : A) (w : W)
      → let p = invoke_method go sdk client method (some body) read zero_value w in
        ((e : Error) × (p ≡ (err e, w))) ⊎ ((clock w < clock p.1) × (clock w < deadline))
  unfolding invoke_method raise
  invoke_method_cases {A} method body read zero_value w = by_bridge client.call refl
    where
      Fate : Result A × W → Type 0
      Fate p = ((e : Error) × (p ≡ (err e, w))) ⊎ ((clock w < clock p.1) × (clock w < deadline))

      by_context :
          (call : Bytes → Bytes → Exec W Bytes)
          → client.call ≡ some call
          → (client.cancelled w ≡ true) ⊎ (client.cancelled w ≡ false)
          → Fate (
              if client.cancelled w
              then (err (plain "context done"), w)
              else call_host go sdk client call method read zero_value (some body) w)
      by_context call e (inl t) = rw t (inl (plain "context done", refl))
      by_context call e (inr t) = rw t (
          inr (
            rw (call_host_world call method body read zero_value w)
                (timed.takes_time call e method body w),
            in_time t,
          ))

      by_bridge :
          (o : Option (Bytes → Bytes → Exec W Bytes))
          → client.call ≡ o
          → Fate (
              (elim o as (λ _. Exec W A) [
                | none ↦ raise (plain "host callback bridge is unavailable")
                | some call ↦ λ v.
                    if client.cancelled v
                    then (err (plain "context done"), v)
                    else call_host go sdk client call method read zero_value (some body) v
              ])
                w)
      by_bridge none e = inl (plain "host callback bridge is unavailable", refl)
      by_bridge (some call) e = by_context call e (Bool-cases (client.cancelled w))

  read_http_stream_cases :
      (id : Bytes) (w : W)
      → let p = read_http_stream go sdk client id w in
        ((e : Error) × (p ≡ (err e, w))) ⊎ ((clock w < clock p.1) × (clock w < deadline))
  unfolding read_http_stream
  read_http_stream_cases id w = invoke_method_cases _ _ _ _ w

  -- What a read comes to, and the loop behind it.
  abbrev after_read : ℕ → ℕ → Bytes → Bytes → Result Chunk × W → Option (Result Bytes) × W
  after_read fuel limit id body (chunk, v) = elim (read_step limit body chunk) [
    | failed e ↦ (some (err e), v)
    | finished whole ↦ (some (ok whole), v)
    | more longer ↦ read_chunks go sdk client fuel limit id longer v
  ]

  abbrev IsOver : Option (Result Bytes) × W → Type 0
  IsOver p = (r : Result Bytes) × (p.0 ≡ some r)

  failed_read :
      (fuel limit : ℕ) (id body : Bytes) (w : W) {e : Error}
      → read_http_stream go sdk client id w ≡ (err e, w)
      → IsOver (after_read fuel limit id body (read_http_stream go sdk client id w))
  unfolding read_step
  failed_read fuel limit id body w {e} q =
      subst (λ p. IsOver (after_read fuel limit id body p)) (sym q) (err e, refl)

  later_read :
      (fuel limit : ℕ) (id body : Bytes) (p : Result Chunk × W)
      → ((longer : Bytes) → IsOver (read_chunks go sdk client fuel limit id longer p.1))
      → IsOver (after_read fuel limit id body p)
  later_read fuel limit id body (chunk, v) again = by_step (read_step limit body chunk)
    where
      by_step :
          (t : ReadStep)
          → IsOver (elim t as (λ _. Option (Result Bytes) × W) [
            | failed e ↦ (some (err e), v)
            | finished whole ↦ (some (ok whole), v)
            | more longer ↦ read_chunks go sdk client fuel limit id longer v
          ])
      by_step (failed e) = (err e, refl)
      by_step (finished whole) = (ok whole, refl)
      by_step (more longer) = again longer

  -- The read loop ends within as many reads as there is time, and one more.
  read_chunks_ends :
      (fuel limit : ℕ) (id body : Bytes) (w : W)
      → deadline ≤ clock w + fuel
      → IsOver (read_chunks go sdk client (suc fuel) limit id body w)
  unfolding read_chunks
  read_chunks_ends zero limit id body w h = elim (read_http_stream_cases id w) [
    | inl (e, q) ↦ failed_read 0 limit id body w q
    | inr (g, l) ↦ absurd (omega (arith, h, l))
  ]
  read_chunks_ends (suc fuel) limit id body w h = elim (read_http_stream_cases id w) [
    | inl (e, q) ↦ failed_read (suc fuel) limit id body w q
    | inr (g, l) ↦
        later_read (suc fuel) limit id body (read_http_stream go sdk client id w)
          λ longer. read_chunks_ends fuel limit id longer _ (omega (arith, h, g))
  ]

  finish_read_ends :
      (id : Bytes) (status : ℕ) (p : Option (Result Bytes) × W)
      → IsOver p
      → (reply : Reply) × ((finish_read go sdk client id status p).0 ≡ some reply)
  finish_read_ends id status (none, v) (r, q) = cc
  finish_read_ends id status (some (err e), v) h = (_, refl)
  finish_read_ends id status (some (ok body), v) h = by_close (close_http_stream go sdk client id v)
    where
      by_close :
          (c : Result (Unit {0}) × W)
          → (reply : Reply) × ((finish_close go sdk client id status body c).0 ≡ some reply)
      by_close (ok _, u) = (_, refl)
      by_close (err e, u) = (_, refl)

  -- The bounded call over the host has a reply, whatever the host answers, with one unit of fuel more
  -- than there is time left. Its context is done from a deadline on, by a clock that each host call
  -- moves forward.
  pub host_http_do_limited_ends :
      (fuel : ℕ) (id : Bytes) (r : Request) (limit : ℕ) (w : W)
      → deadline ≤ clock w + fuel
      → (reply : Reply) × ((host_http_do_limited go sdk client (suc fuel) id r limit w).0
          ≡ some reply)
  unfolding host_http_do_limited open_http_stream
  host_http_do_limited_ends fuel id r limit w h = elim (Bool-cases (limit == 0)) [
    | inl e ↦ rw e (_, refl)
    | inr e ↦
        rw e (
          by_opening (open_http_stream go sdk client id r w)
            (later (invoke_method_cases _ _ _ _ w)))
  ]
    where
      later :
          {p : Result Opened × W}
          → ((e : Error) × (p ≡ (err e, w))) ⊎ ((clock w < clock p.1) × (clock w < deadline))
          → clock w ≤ clock p.1
      later (inl (e, q)) = let same_world = ap (λ x. clock x.1) q in omega (arith, same_world)
      later (inr (g, l)) = omega (arith, g)

      by_opening :
          (o : Result Opened × W)
          → clock w ≤ clock o.1
          → (reply : Reply) × ((read_stream go sdk client (suc fuel) limit o).0 ≡ some reply)
      by_opening (err e, v) g = (_, refl)
      by_opening (ok o, v) g = elim (Bool-cases (same (trim o.stream_id) [])) [
        | inl e ↦ rw e (_, refl)
        | inr e ↦ rw e (
            finish_read_ends (trim o.stream_id) o.status_code _
              (read_chunks_ends fuel limit (trim o.stream_id) [] v (omega (arith, h, g))))
      ]
